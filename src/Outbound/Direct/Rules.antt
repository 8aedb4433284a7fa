-- ===== src/Outbound/Direct/Rules.antt =====
-- Reasoning rules for the two steps of a dial: a decision, and an attempt to connect.
use airjail.Base.{
  ℕ, Bool, true, false, ◌||◌, not, Option, some, List, [], ◌∷◌, ◌++◌, ◌≡◌, refl, Result, ok, err,
  length, ◌==◌, list_eq, nat_eq, contains, inl, inr, Bool-cases, arith, ==_iff,
}
use airjail.Base.Bytes.{Bytes}
use airjail.Netip.{Addr, addr_eq, is_valid, zone_of, unmap}
use airjail.Policy.Errors.{AllowsError}
use airjail.Policy.Library.{Library}
use airjail.Policy.Decision.{Policy, allows}
use airjail.Outbound.Direct.{
  Net, Trace, Outcome, policy_failed, record_dial, record_decision, decide_then, dial_then,
  dial_each, no_connection,
}

module _ (net : Net) (lib : Library) (policy : Policy) (port : ℕ) (P : Outcome net → Type 0) where
  pub dial_then_rule :
      (hostname : Bytes) (address : Addr) (t : Trace) (failed : ℕ → Trace → Outcome net)
      → ((c : net.Conn)
          → net.dial (length t.dials) hostname address port ≡ ok c
          → P (
            ok c,
            record_dial t (record { hostname = hostname; address = address; port = port }),
          ))
      → ((code : ℕ)
          → net.dial (length t.dials) hostname address port ≡ err code
          → P (
              failed code
                (record_dial t (record { hostname = hostname; address = address; port = port }))))
      → P (dial_then net lib policy port hostname address t failed)
  unfolding dial_then
  dial_then_rule hostname address t failed good bad =
      by (net.dial (length t.dials) hostname address port) refl
    where
      by :
          (r : Result ℕ net.Conn)
          → net.dial (length t.dials) hostname address port ≡ r
          → P (dial_then net lib policy port hostname address t failed)
      by (ok c) e = rw (e, dial_then) (good c e)
      by (err code) e = rw (e, dial_then) (bad code e)

  pub decide_then_rule :
      (hostname : Bytes) (address logged : Addr) (t : Trace) (granted refused : Trace → Outcome net)
      → ((e : AllowsError)
          → allows lib policy hostname address port ≡ err e
          → P (err (policy_failed e), t))
      → (allows lib policy hostname address port ≡ ok true
          → P (
              granted (
                record_decision t
                  (record { allowed = true; hostname = hostname; address = logged }))))
      → (allows lib policy hostname address port ≡ ok false
          → P (
              refused (
                record_decision t
                  (record { allowed = false; hostname = hostname; address = logged }))))
      → P (decide_then net lib policy port hostname address logged t granted refused)
  unfolding decide_then
  decide_then_rule hostname address logged t granted refused bad yes_ no_ =
      by (allows lib policy hostname address port) refl
    where
      by :
          (r : Result AllowsError Bool)
          → allows lib policy hostname address port ≡ r
          → P (decide_then net lib policy port hostname address logged t granted refused)
      by (err e) h = rw (h, decide_then) (bad e h)
      by (ok true) h = rw (h, decide_then) (yes_ h)
      by (ok false) h = rw (h, decide_then) (no_ h)

-- the test that skips an answer
abbrev pub skips : List Addr → Addr → Bool
skips seen answer =
    not (is_valid answer) || not (zone_of answer == []) || contains seen (unmap answer)

pub skips_usable :
    (seen : List Addr) (x : Addr)
    → skips seen x ≡ false
    → (is_valid x ≡ true) × (zone_of x ≡ []) × (contains seen (unmap x) ≡ false)
skips_usable seen x h = ground (arith, ==_iff (zone_of x) [])

-- the trace after a decision, and after a dial that follows it
abbrev pub refused_trace : Bytes → Addr → Trace → Trace
refused_trace hostname a t =
    record_decision t (record { allowed = false; hostname = hostname; address = a })

abbrev pub granted_trace : Bytes → Addr → Trace → Trace
granted_trace hostname a t =
    record_decision t (record { allowed = true; hostname = hostname; address = a })

abbrev pub dialed_trace : Bytes → Addr → ℕ → Trace → Trace
dialed_trace hostname a port t =
    record_dial (granted_trace hostname a t)
      (record { hostname = hostname; address = a; port = port })

-- Induction over the loop of Dial: an invariant `I` of the addresses left and the loop's variables
-- that each round keeps, and a property `P` of the outcome that each way out of the loop has.
pub record Loop (net : Net) (lib : Library) (policy : Policy) (port : ℕ) (hostname : Bytes)
    (I : List Addr → List Addr → Option ℕ → Trace → Type 0) (P : Outcome net → Type 0)
    : Type 0 where
  pub exhausted :
      (seen : List Addr) (last : Option ℕ) (t : Trace)
      → I [] seen last t
      → P (err (no_connection last), t)
  pub skipped :
      (x : Addr) (xs seen : List Addr) (last : Option ℕ) (t : Trace)
      → I (x ∷ xs) seen last t
      → skips seen x ≡ true
      → I xs seen last t
  pub faulted :
      (x : Addr) (xs seen : List Addr) (last : Option ℕ) (t : Trace) (e : AllowsError)
      → I (x ∷ xs) seen last t
      → skips seen x ≡ false
      → allows lib policy hostname (unmap x) port ≡ err e
      → P (err (policy_failed e), t)
  pub refused :
      (x : Addr) (xs seen : List Addr) (last : Option ℕ) (t : Trace)
      → I (x ∷ xs) seen last t
      → skips seen x ≡ false
      → allows lib policy hostname (unmap x) port ≡ ok false
      → I xs (seen ++ unmap x ∷ []) last (refused_trace hostname (unmap x) t)
  pub connected :
      (x : Addr) (xs seen : List Addr) (last : Option ℕ) (t : Trace) (c : net.Conn)
      → I (x ∷ xs) seen last t
      → skips seen x ≡ false
      → allows lib policy hostname (unmap x) port ≡ ok true
      → net.dial (length t.dials) hostname (unmap x) port ≡ ok c
      → P (ok c, dialed_trace hostname (unmap x) port t)
  pub failed :
      (x : Addr) (xs seen : List Addr) (last : Option ℕ) (t : Trace) (code : ℕ)
      → I (x ∷ xs) seen last t
      → skips seen x ≡ false
      → allows lib policy hostname (unmap x) port ≡ ok true
      → net.dial (length t.dials) hostname (unmap x) port ≡ err code
      → I xs (seen ++ unmap x ∷ []) (some code) (dialed_trace hostname (unmap x) port t)

module _ (net : Net) (lib : Library) (policy : Policy) (port : ℕ) (hostname : Bytes)
    (I : List Addr → List Addr → Option ℕ → Trace → Type 0) (P : Outcome net → Type 0)
    (loop : Loop net lib policy port hostname I P) where
  pub dial_each_induction :
      (answers seen : List Addr) (last : Option ℕ) (t : Trace)
      → I answers seen last t
      → P (dial_each net lib policy port hostname answers seen last t)
  unfolding dial_each
  dial_each_induction [] seen last t i = loop.exhausted seen last t i
  dial_each_induction (x ∷ xs) seen last t i = elim (Bool-cases (skips seen x)) [
    | inl e ↦ rw e (dial_each_induction xs seen last t (loop.skipped x xs seen last t i e))
    | inr e ↦ rw e (
        decide_then_rule net lib policy port P hostname (unmap x) (unmap x) t
          (λ u. dial_then net lib policy port hostname (unmap x) u (λ code v.
            dial_each net lib policy port hostname xs (seen ++ unmap x ∷ []) (some code) v))
          (λ u. dial_each net lib policy port hostname xs (seen ++ unmap x ∷ []) last u)
          (λ fault h. loop.faulted x xs seen last t fault i e h)
          (λ granted.
            dial_then_rule net lib policy port P hostname (unmap x)
              (granted_trace hostname (unmap x) t)
              (λ code v.
                dial_each net lib policy port hostname xs (seen ++ unmap x ∷ []) (some code) v)
              (λ c h. loop.connected x xs seen last t c i e granted h)
              (λ code h.
                dial_each_induction xs (seen ++ unmap x ∷ []) (some code)
                  (dialed_trace hostname (unmap x) port t)
                  (loop.failed x xs seen last t code i e granted h)))
          (λ h.
            dial_each_induction xs (seen ++ unmap x ∷ []) last (refused_trace hostname (unmap x) t)
              (loop.refused x xs seen last t i e h)))
  ]
