-- ===== src/Policy/Decision/Laws.antt =====
-- The decision of a policy: its modes, and what more rules change.
use airjail.Base.{
  ℕ, true, List, [], ◌∷◌, ◌++◌, ◌≡◌, ◌⊎◌, inl, inr, ◌↔◌, refl, arith, Some, length, nat_eq, list_eq,
}
use airjail.Base.Bytes.{Bytes}
use airjail.Netip.{Addr, addr_eq}
use airjail.Policy.Rules.{RuleSet}
use airjail.Policy.Decision.{Policy, empty, is_empty, decide}
use airjail.Policy.Decision.Covers.{Covers, matches_iff}

abbrev pub HasNoRules : RuleSet → Type 0
HasNoRules rules = (rules.hosts ≡ []) × (rules.addresses ≡ []) × (rules.prefixes ≡ [])

length-zero {ℓ} : {A : Type ℓ} (xs : List A) → (length xs ≡ 0) ↔ (xs ≡ [])
length-zero [] = ((λ h. refl), (λ h. refl))
length-zero (x ∷ xs) = ((λ h. absurd (omega arith)), (λ h. cc))

empty_iff : (rules : RuleSet) → (empty rules ≡ true) ↔ HasNoRules rules
unfolding empty
empty_iff rules =
    ground (arith, length-zero rules.hosts, length-zero rules.addresses, length-zero rules.prefixes)

pub is_empty_iff :
    (policy : Policy)
    → (is_empty policy ≡ true) ↔ (HasNoRules policy.allow × HasNoRules policy.block)
unfolding is_empty
is_empty_iff policy = ground (arith, empty_iff policy.allow, empty_iff policy.block)

-- The four modes in one statement: a destination is granted exactly when there is some rule, no
-- block rule covers it, and there are no allow rules or one of them covers it.
pub decide_iff :
    (policy : Policy) (hostname : Bytes) (address : Addr) (port : ℕ)
    → (decide policy hostname address port ≡ true) ↔ (
        (¬ (HasNoRules policy.allow × HasNoRules policy.block))
        × (HasNoRules policy.allow ⊎ Covers policy.allow hostname address port)
        × (¬ Covers policy.block hostname address port))
unfolding decide is_empty
decide_iff policy hostname address port = ground (
  arith,
  empty_iff policy.allow,
  empty_iff policy.block,
  matches_iff policy.allow hostname address port,
  matches_iff policy.block hostname address port,
)

-- all rules of two sets
abbrev pub join : RuleSet → RuleSet → RuleSet
join rules more = record {
  hosts = rules.hosts ++ more.hosts;
  addresses = rules.addresses ++ more.addresses;
  prefixes = rules.prefixes ++ more.prefixes;
}

Some-append {ℓ} : {A : Type ℓ} (P : A → Type 0) (xs ys : List A) → Some P xs → Some P (xs ++ ys)
Some-append P [] ys h = absurd h
Some-append P (x ∷ xs) ys (inl here) = inl here
Some-append P (x ∷ xs) ys (inr there) = inr (Some-append P xs ys there)

Covers-join :
    (rules more : RuleSet) (hostname : Bytes) (address : Addr) (port : ℕ)
    → Covers rules hostname address port
    → Covers (join rules more) hostname address port
Covers-join rules more hostname address port (inl h) = inl (Some-append _ rules.hosts more.hosts h)
Covers-join rules more hostname address port (inr (v, inl h)) =
    inr (v, inl (Some-append _ rules.addresses more.addresses h))
Covers-join rules more hostname address port (inr (v, inr h)) =
    inr (v, inr (Some-append _ rules.prefixes more.prefixes h))

append-nil-left {ℓ} : {A : Type ℓ} (xs ys : List A) → xs ++ ys ≡ [] → xs ≡ []
append-nil-left [] ys h = refl
append-nil-left (x ∷ xs) ys h = cc

HasNoRules-join : (rules more : RuleSet) → HasNoRules (join rules more) → HasNoRules rules
HasNoRules-join rules more (h, a, p) = (
  append-nil-left rules.hosts more.hosts h,
  append-nil-left rules.addresses more.addresses a,
  append-nil-left rules.prefixes more.prefixes p,
)

module _ (policy : Policy) (more : RuleSet) (hostname : Bytes) (address : Addr) (port : ℕ) where
  -- More block rules grant nothing new, if the policy has a rule. (The first block rule of an empty
  -- policy does: it turns the denial of everything into a blocklist.)
  pub decide-block_more :
      ¬ (HasNoRules policy.allow × HasNoRules policy.block)
      → decide (record policy { block = join policy.block more }) hostname address port ≡ true
      → decide policy hostname address port ≡ true
  decide-block_more some_rule h =
      let (_, granted, free) = (decide_iff _ hostname address port).0 h in
      (decide_iff policy hostname address port).1
        (some_rule, granted, λ c. free (Covers-join policy.block more hostname address port c))

  -- More allow rules take nothing away, if the policy has an allow rule. (The first allow rule of a
  -- blocklist does: it turns it into an allowlist.)
  pub decide-allow_more :
      ¬ HasNoRules policy.allow
      → decide policy hostname address port ≡ true
      → decide (record policy { allow = join policy.allow more }) hostname address port ≡ true
  decide-allow_more some_rule h =
      let (_, granted, free) = (decide_iff policy hostname address port).0 h in
      (decide_iff _ hostname address port).1 (
        (λ none. some_rule (HasNoRules-join policy.allow more none.0)),
        (elim granted [
          | inl none ↦ absurd (some_rule none)
          | inr covered ↦ inr (Covers-join policy.allow more hostname address port covered)
        ]),
        free,
      )
