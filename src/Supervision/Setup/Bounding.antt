-- ===== src/Supervision/Setup/Bounding.antt =====
-- What dropSetupCapabilities takes from the bounding set, and what it does behind that.
use airjail.Base.{
  ℕ, zero, suc, ◌+◌, ◌≤◌, ◌<◌, none, some, List, [], ◌∷◌, ◌++◌, ◌≡◌, ◌⊎◌, ◌∙◌, refl, subst, arith,
  ok, err, Bool-cases, Option-cases, inl, inr, ◌==◌, ==_iff, nat_eq,
}
use airjail.Capabilities.Drop.{einval, other}
use airjail.Supervision.Setup.{
  Act, bounding_lost, sets_cleared, no_new_privileges, Host, Done, then_, drop_bounding_from,
  drop_setup_capabilities,
}

pub then-ok :
    {A B : Type 0} (first : Done A) (rest : A → Done B) (b : B)
    → (then_ first rest).1 ≡ ok b
    → (a : A) × (first.1 ≡ ok a)
      × ((rest a).1 ≡ ok b)
      × ((then_ first rest).0 ≡ first.0 ++ (rest a).0)
then-ok (acts, err e) rest b h = absurd (cc)
then-ok (acts, ok a) rest b h = (a, refl, h, refl)

-- the capabilities from one on, in order
abbrev pub lost : (capability count : ℕ) → List Act
lost capability zero = []
lost capability (suc count) = bounding_lost capability ∷ lost (suc capability) count

-- `count` capabilities from one on were dropped, and the next is none
abbrev pub DroppedUntil : Host → (capability left count : ℕ) → Type 0
DroppedUntil host capability left count =
    (count ≤ left)
    × (((c : ℕ) → capability ≤ c → c < capability + count → host.drop_bounding c ≡ none)
        × ((count ≡ left) ⊎ (host.drop_bounding (capability + count) ≡ some einval)))

DroppedUntil-suc :
    (host : Host) (capability left count : ℕ)
    → host.drop_bounding capability ≡ none
    → DroppedUntil host (suc capability) left count
    → DroppedUntil host capability (suc left) (suc count)
DroppedUntil-suc host capability left count now (low, (all, last)) =
    let here : (c : ℕ) → c ≡ capability → host.drop_bounding c ≡ none = λ c e. rw e now in
    let next : suc capability + count ≡ capability + suc count = omega arith in
    (
      omega (arith, low),
      (
        (λ c above below. elim (Bool-cases (c == capability)) [
          | inl e ↦ here c ((==_iff c capability).0 e)
          | inr e ↦ all c (ground (arith, e, above)) (omega (arith, below))
        ]),
        elim last [
          | inl all_left ↦ inl (omega (arith, all_left))
          | inr stops ↦ inr (subst (λ n. host.drop_bounding n ≡ some einval) next stops)
        ],
      ),
    )

DroppedUntil-zero :
    (host : Host) (capability left : ℕ)
    → host.drop_bounding capability ≡ some einval
    → DroppedUntil host capability left 0
DroppedUntil-zero host capability left e =
    let same : capability ≡ capability + 0 = omega arith in
    (
      omega arith,
      (
        (λ c above below. absurd (omega arith)),
        inr (subst (λ n. host.drop_bounding n ≡ some einval) same e),
      ),
    )

drop_bounding_from-ok :
    (host : Host) (capability left : ℕ)
    → (drop_bounding_from host capability left).1 ≡ ok tt
    → (count : ℕ) × ((drop_bounding_from host capability left).0 ≡ lost capability count)
      × DroppedUntil host capability left count
unfolding drop_bounding_from
drop_bounding_from-ok host capability zero h =
    (0, refl, (omega arith, ((λ c low high. absurd (omega arith)), inl refl)))
drop_bounding_from-ok host capability (suc left) h =
    elim (Option-cases (host.drop_bounding capability)) [
      | inl e ↦
          let later : (drop_bounding_from host (suc capability) left).1 ≡ ok tt =
            ground (arith, e) in
          let (count, acts, (low, (all, last))) =
            drop_bounding_from-ok host (suc capability) left later in
          (
            suc count,
            ground (arith, e, acts),
            DroppedUntil-suc host capability left count e (low, (all, last)),
          )
      | inr (einval, e) ↦ (0, ground (arith, e), DroppedUntil-zero host capability (suc left) e)
      | inr (other code, e) ↦ absurd (ground (arith, e))
    ]

-- If dropSetupCapabilities returns without an error, the bounding set has lost the capabilities from 0
-- on, up to the first that the kernel does not know or the 64th, and behind these the sets were cleared
-- and no_new_privs was set.
pub drop_setup_capabilities-ok :
    (host : Host)
    → (drop_setup_capabilities host).1 ≡ ok tt
    → (count : ℕ) × ((drop_setup_capabilities host).0
        ≡ lost 0 count ++ (sets_cleared ∷ no_new_privileges ∷ []))
      × DroppedUntil host 0 64 count
unfolding drop_setup_capabilities
drop_setup_capabilities-ok host h =
    let (_, d, h1, e1) = then-ok (drop_bounding_from host 0 64) _ tt h in
    let (count, acts, until) = drop_bounding_from-ok host 0 64 d in
    (count, e1 ∙ ground (arith, acts), until)
