-- ===== src/Http/Sets/Refines.antt =====
-- The connection set implements the tunnels that it promises to keep.
use airjail.Base.{
  ℕ, ◌+◌, Bool, true, false, List, [], ◌∷◌, ◌++◌, ◌≡◌, refl, sym, ◌∙◌, ap, subst, arith, length,
  length-append, append-nil, append_assoc, ◌==◌, ==_iff, nat_eq, list_eq, contains, contains-append,
  Distinct, Bool-cases, inl, inr, ◌↔◌,
}
use airjail.Base.Sets.{
  delete, delete_all, delete_all-append, insert_all, insert_all-append, length-delete,
  Apart-Distinct, Apart-left, Distinct-Apart, Distinct-delete_all, contains-delete_all,
}
use airjail.Http.Sets.{
  ConnectionSet, new_connection_set, add_connections, remove_connections, close_connections,
  is_idle, Call, adds, removes, closes, perform, run,
}
use airjail.Http.Sets.Spec.{Tunnels, no_tunnels, perform_spec, run_spec, concat, Due, AllDue}

concat-append : (xs ys : List (List ℕ)) → concat (xs ++ ys) ≡ concat xs ++ concat ys
concat-append [] ys = refl
concat-append (x ∷ xs) ys = rw (concat-append xs ys) (sym (append_assoc x (concat xs) (concat ys)))

-- the connections without those of one tunnel, behind any others
concat-delete :
    (before : List ℕ) (live : List (List ℕ)) (tunnel : List ℕ)
    → contains live tunnel ≡ true
    → Distinct (before ++ concat live)
    → delete_all (before ++ concat live) tunnel ≡ before ++ concat (delete live tunnel)
unfolding delete contains
concat-delete before [] tunnel found once = absurd (cc)
concat-delete before (x ∷ live) tunnel found once = elim (Bool-cases (x == tunnel)) [
  | inl e ↦
      let same : x ≡ tunnel = (==_iff x tunnel).0 e in
      let apart =
        Apart-left before x (concat live) (Apart-Distinct before (x ++ concat live) once) in
      rw (e, delete)
        (subst (λ t. delete_all (before ++ (x ++ concat live)) t ≡ before ++ concat live) same
          (delete_all-append before x (concat live) apart))
  | inr e ↦
      let regroup = append_assoc before x (concat live) in
      let later =
        concat-delete (before ++ x) live tunnel (ground (arith, e))
          (subst Distinct (sym regroup) once) in
      rw (e, delete)
        (ap (λ xs. delete_all xs tunnel) (sym regroup)
          ∙ (later ∙ append_assoc before x (concat (delete live tunnel))))
]

-- The set holds the connections of the live tunnels, counts these, and has closed each of them once it
-- is shut.
pub record Implements (t : Tunnels) (s : ConnectionSet) : Type 0 where
  pub connections : s.connections ≡ concat t.live
  pub active : s.active ≡ length t.live
  pub shut : s.closing ≡ t.shut
  pub distinct : Distinct (concat t.live)
  pub closed :
      s.closing ≡ true → (c : ℕ) → contains s.connections c ≡ true → contains s.closed c ≡ true

grown : ConnectionSet → List ℕ → ConnectionSet
grown s tunnel = record s { active = s.active + 1; connections = insert_all s.connections tunnel }

grown-Implements :
    (t : Tunnels) (s : ConnectionSet) (tunnel : List ℕ)
    → t.shut ≡ false
    → Due t (adds tunnel)
    → Implements t s
    → Implements (record t { live = t.live ++ tunnel ∷ [] }) (grown s tunnel)
unfolding grown
grown-Implements t s tunnel working (apart, once) i =
    let joined : concat (t.live ++ tunnel ∷ []) ≡ concat t.live ++ tunnel =
      concat-append t.live (tunnel ∷ []) ∙ ap (λ xs. concat t.live ++ xs) (append-nil tunnel) in
    record {
      connections =
          rw i.connections (insert_all-append (concat t.live) tunnel apart once ∙ sym joined);
      active = ground (arith, i.active, length-append t.live (tunnel ∷ []));
      shut = i.shut;
      distinct = rw joined (Distinct-Apart (concat t.live) tunnel i.distinct once apart);
      closed = λ e c h. absurd (ground (arith, i.shut));
    }

shrunk-Implements :
    (t : Tunnels) (s : ConnectionSet) (tunnel : List ℕ)
    → contains t.live tunnel ≡ true
    → Implements t s
    → Implements (record t { live = delete t.live tunnel }) (remove_connections s tunnel)
unfolding remove_connections
shrunk-Implements t s tunnel found i =
    let less = concat-delete [] t.live tunnel found i.distinct in
    record {
      connections = ap (λ xs. delete_all xs tunnel) i.connections ∙ less;
      active = ground (arith, i.active, length-delete t.live tunnel found);
      shut = i.shut;
      distinct = subst Distinct less (Distinct-delete_all (concat t.live) tunnel i.distinct);
      closed = λ e c h. i.closed e c (contains-delete_all s.connections tunnel c h);
    }

shut-Implements :
    (t : Tunnels) (s : ConnectionSet)
    → Implements t s
    → Implements (record t { shut = true }) (close_connections s)
unfolding close_connections
shut-Implements t s i = record {
  connections = i.connections;
  active = i.active;
  shut = refl;
  distinct = i.distinct;
  closed = λ e c h. ground (arith, contains-append s.closed s.connections c);
}

length_zero : (live : List (List ℕ)) → length live ≡ 0 → live ≡ []
length_zero [] h = refl
length_zero (x ∷ live) h = absurd (omega arith)

idle_iff : (t : Tunnels) (s : ConnectionSet) → Implements t s → (is_idle s ≡ true) ↔ (t.live ≡ [])
idle_iff t s i = (
  (λ h. length_zero t.live (ground (arith, i.active))),
  (λ none_left. ground (arith, i.active, ap length none_left)),
)

-- The two states agree, and so do the answers.
abbrev Agrees : Tunnels × List Bool → ConnectionSet × List Bool → Type 0
Agrees spec code = Implements spec.0 code.0 × (code.1 ≡ spec.1)

added :
    (s : ConnectionSet) (tunnel : List ℕ)
    → s.closing ≡ false
    → perform s (adds tunnel) ≡ (grown s tunnel, true ∷ [])
unfolding perform add_connections grown
added s tunnel e = ground (arith, e)

refused :
    (s : ConnectionSet) (tunnel : List ℕ)
    → s.closing ≡ true
    → perform s (adds tunnel) ≡ (s, false ∷ [])
unfolding perform add_connections
refused s tunnel e = ground (arith, e)

added_spec :
    (t : Tunnels) (tunnel : List ℕ)
    → t.shut ≡ false
    → perform_spec t (adds tunnel) ≡ (record t { live = t.live ++ tunnel ∷ [] }, true ∷ [])
unfolding perform_spec
added_spec t tunnel e = ground (arith, e)

refused_spec :
    (t : Tunnels) (tunnel : List ℕ) → t.shut ≡ true → perform_spec t (adds tunnel) ≡ (t, false ∷ [])
unfolding perform_spec
refused_spec t tunnel e = ground (arith, e)

adds-Agrees :
    (t : Tunnels) (s : ConnectionSet) (tunnel : List ℕ)
    → Due t (adds tunnel)
    → Implements t s
    → Agrees (perform_spec t (adds tunnel)) (perform s (adds tunnel))
adds-Agrees t s tunnel due i = elim (Bool-cases t.shut) [
  | inl e ↦ rw (refused s tunnel (i.shut ∙ e)) (rw (refused_spec t tunnel e) (i, refl))
  | inr e ↦
      rw (added s tunnel (i.shut ∙ e))
        (rw (added_spec t tunnel e) (grown-Implements t s tunnel e due i, refl))
]

perform-Agrees :
    (t : Tunnels) (s : ConnectionSet) (call : Call)
    → Due t call
    → Implements t s
    → Agrees (perform_spec t call) (perform s call)
unfolding perform perform_spec
perform-Agrees t s (adds tunnel) due i = adds-Agrees t s tunnel due i
perform-Agrees t s (removes tunnel) due i = (shrunk-Implements t s tunnel due i, refl)
perform-Agrees t s closes due i = (shut-Implements t s i, refl)

run-Agrees :
    (t : Tunnels) (s : ConnectionSet) (calls : List Call)
    → AllDue t calls
    → Implements t s
    → Agrees (run_spec t calls) (run s calls)
unfolding run run_spec
run-Agrees t s [] due i = (i, refl)
run-Agrees t s (call ∷ calls) due i =
    let (step, same) = perform-Agrees t s call due.0 i in
    let (last, later) = run-Agrees (perform_spec t call).0 (perform s call).0 calls due.1 step in
    (last, rw (same, later))

-- The connection set implements its specification: after any calls that are due, add has answered as
-- the tunnels did, the set holds the connections of the live tunnels and no others, wait returns
-- exactly if no tunnel is live, and once the set is shut closeAll has closed every connection left.
pub run-Implements :
    (calls : List Call)
    → AllDue no_tunnels calls
    → Implements (run_spec no_tunnels calls).0 (run new_connection_set calls).0
      × ((run new_connection_set calls).1 ≡ (run_spec no_tunnels calls).1)
      × ((is_idle (run new_connection_set calls).0 ≡ true)
          ↔ ((run_spec no_tunnels calls).0.live ≡ []))
run-Implements calls due =
    let start : Implements no_tunnels new_connection_set = record {
      connections = refl;
      active = refl;
      shut = refl;
      distinct = tt;
      closed = λ e c h. absurd (cc);
    } in
    let (i, same) = run-Agrees no_tunnels new_connection_set calls due start in
    (i, same, idle_iff (run_spec no_tunnels calls).0 (run new_connection_set calls).0 i)
