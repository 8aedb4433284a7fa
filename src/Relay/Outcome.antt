-- ===== src/Relay/Outcome.antt =====
-- What Bidirectional returns, for every interleaving.
use airjail.Base.{
  ℕ, zero, suc, ◌+◌, ◌<◌, Bool, true, false, ◌||◌, Option, none, some, List, [], ◌∷◌, ◌++◌, ◌≡◌,
  refl, ap, ◌∙◌, arith, if◌then◌else◌, ltb, lt→ltb, inl, inr, Bool-cases,
}
use airjail.Relay.{
  Failure, net_closed, context_canceled, broken, is_relay_error, Event, result, done, State, start,
  loop, RelayError, copy_error, context_err, conclude, bidirectional,
}

-- `n` times the cancellation
abbrev pub dones : ℕ → List Event
dones zero = []
dones (suc n) = done ∷ dones n

abbrev state : ℕ → Option Failure → Bool → Bool → ℕ → State
state n failure canceled waiting closes = record {
  completed = n;
  relay_err = failure;
  canceled = canceled;
  waiting = waiting;
  closes = closes;
}

-- cancellations after the first one
loop-settled :
    (n c x : ℕ) (failure : Option Failure) (rest : List Event)
    → c < 2
    → loop (dones n ++ rest) (state c failure true false x)
      ≡ loop rest (state c failure true false x)
unfolding loop
loop-settled zero c x failure rest h = refl
loop-settled (suc n) c x failure rest h =
    ground (arith, lt→ltb c 2 h, loop-settled n c x failure rest h)

-- cancellations from the first one on
loop-pending :
    (n c x : ℕ) (failure : Option Failure) (rest : List Event)
    → c < 2
    → loop (dones (suc n) ++ rest) (state c failure false true x)
      ≡ loop rest (state c failure true false (x + 1))
unfolding loop
loop-pending n c x failure rest h =
    ground (arith, lt→ltb c 2 h, loop-settled n c (x + 1) failure rest h)

abbrev pub copied : Option Failure → Option RelayError
copied none = none
copied (some failure) = some (copy_error failure)

-- the error for the results `a` and then `b`, and for whether the context was canceled before `b`
abbrev pub error_of : Option Failure → Option Failure → Bool → Option RelayError
error_of a b canceled =
    if is_relay_error a
    then copied a
    else if is_relay_error b
    then copied b
    else if canceled
    then some context_err
    else none

abbrev pub closes_of : Option Failure → Option Failure → Bool → ℕ
closes_of a b canceled =
    (if is_relay_error a || is_relay_error b then 1 else 0) + (if canceled then 1 else 0)

abbrev first_relay_error : Option Failure → Option Failure → Option Failure
first_relay_error a b = if is_relay_error a then a else if is_relay_error b then b else none

loop-result :
    (a : Option Failure) (c x : ℕ) (canceled waiting : Bool) (rest : List Event)
    → c < 2
    → loop (result a ∷ rest) (state c none canceled waiting x)
      ≡ loop rest
          (state (suc c) (first_relay_error a none) canceled waiting (x + closes_of a none false))
unfolding loop is_relay_error
loop-result a c x canceled waiting rest h = elim (Bool-cases (is_relay_error a)) [
  | inl e ↦ ground (arith, e, lt→ltb c 2 h)
  | inr e ↦ ground (arith, e, lt→ltb c 2 h)
]

loop-result_later :
    (b : Option Failure) (failure : Failure) (c x : ℕ) (canceled waiting : Bool) (rest : List Event)
    → c < 2
    → loop (result b ∷ rest) (state c (some failure) canceled waiting x)
      ≡ loop rest (state (suc c) (some failure) canceled waiting x)
unfolding loop
loop-result_later b failure c x canceled waiting rest h = ground (arith, lt→ltb c 2 h)

loop-finished : (rest : List Event) (s : State) → s.completed ≡ 2 → loop rest s ≡ some s
unfolding loop
loop-finished [] s h = ground arith
loop-finished (event ∷ rest) s h = ground arith

loop-both :
    (rest : List Event) (a b : Option Failure) (canceled waiting : Bool) (x : ℕ)
    → loop
        (result b ∷ rest)
        (state 1 (first_relay_error a none) canceled waiting (x + closes_of a none false))
      ≡ some (state 2 (first_relay_error a b) canceled waiting (x + closes_of a b false))
unfolding is_relay_error
loop-both rest (some (broken code)) b canceled waiting x =
    loop-result_later b (broken code) 1 (x + (1 + 0)) canceled waiting rest (omega arith)
    ∙ loop-finished rest (state 2 (some (broken code)) canceled waiting (x + (1 + 0))) refl
loop-both rest none b canceled waiting x =
    loop-result b 1 (x + (0 + 0)) canceled waiting rest (omega arith)
    ∙ (loop-finished rest
          (state 2 (first_relay_error b none) canceled waiting
            (x + (0 + 0) + closes_of b none false))
          refl
        ∙ ground arith)
loop-both rest (some net_closed) b canceled waiting x =
    loop-result b 1 (x + (0 + 0)) canceled waiting rest (omega arith)
    ∙ (loop-finished rest
          (state 2 (first_relay_error b none) canceled waiting
            (x + (0 + 0) + closes_of b none false))
          refl
        ∙ ground arith)
loop-both rest (some context_canceled) b canceled waiting x =
    loop-result b 1 (x + (0 + 0)) canceled waiting rest (omega arith)
    ∙ (loop-finished rest
          (state 2 (first_relay_error b none) canceled waiting
            (x + (0 + 0) + closes_of b none false))
          refl
        ∙ ground arith)

conclude_lem :
    (a b : Option Failure) (canceled waiting : Bool) (x : ℕ)
    → conclude (state 2 (first_relay_error a b) canceled waiting x) ≡ error_of a b canceled
unfolding conclude is_relay_error
conclude_lem (some (broken code)) b canceled waiting x = refl
conclude_lem a (some (broken code)) canceled waiting x = ground arith
conclude_lem a b canceled waiting x = ground arith

Finished : Option Failure → Option Failure → Bool → Option State → Type 0
Finished a b canceled o =
    (waiting : Bool) × (o
      ≡ some (state 2 (first_relay_error a b) canceled waiting (closes_of a b canceled)))

loop-Finished :
    (m n : ℕ) (a b : Option Failure) (rest : List Event)
    → Finished a b (ltb 0 (m + n)) (loop (dones m ++ result a ∷ (dones n ++ result b ∷ rest)) start)
unfolding Finished
loop-Finished zero zero a b rest = (
  true,
  ground (
    arith,
    loop-result a 0 0 false true (result b ∷ rest) (omega arith),
    loop-both rest a b false true 0,
  ),
)
loop-Finished zero (suc n) a b rest = (
  false,
  ground (
    arith,
    loop-result a 0 0 false true (dones (suc n) ++ result b ∷ rest) (omega arith),
    loop-pending n 1 (0 + closes_of a none false) (first_relay_error a none) (result b ∷ rest)
        (omega arith),
    loop-both rest a b true false 1,
  ),
)
loop-Finished (suc m) n a b rest = (
  false,
  ground (
    arith,
    loop-pending m 0 0 none (result a ∷ (dones n ++ result b ∷ rest)) (omega arith),
    loop-result a 0 1 true false (dones n ++ result b ∷ rest) (omega arith),
    loop-settled n 1 (1 + closes_of a none false) (first_relay_error a none) (result b ∷ rest)
        (omega arith),
    loop-both rest a b true false 1,
  ),
)

-- Whatever the order of the two results and of the cancellation, Bidirectional returns with the
-- second result: the first relay error, or else the context's error if it was canceled before, or else
-- none. The connections were closed once for the relay error and once for the cancellation.
pub bidirectional_lem :
    (m n : ℕ) (a b : Option Failure) (rest : List Event)
    → bidirectional (dones m ++ result a ∷ (dones n ++ result b ∷ rest))
      ≡ some (error_of a b (ltb 0 (m + n)), closes_of a b (ltb 0 (m + n)))
unfolding bidirectional Finished
bidirectional_lem m n a b rest =
    let canceled = ltb 0 (m + n) in
    let (waiting, e) = loop-Finished m n a b rest in
    rw (e, bidirectional)
      (ap (λ c. some (c, closes_of a b canceled))
        (conclude_lem a b canceled waiting (closes_of a b canceled)))
