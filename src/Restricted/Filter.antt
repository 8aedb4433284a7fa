-- ===== src/Restricted/Filter.antt =====
-- internal/namespace/seccomp_linux.go, restrictedSocketFilter: the filter, and what it denies where
-- go-seccomp-bpf gives a policy its documented meaning.
use airjail.Base.{
  ℕ, Bool, true, false, List, [], ◌∷◌, ◌++◌, ◌≡◌, ◌⊎◌, ◌↔◌, inl, inr, refl, sym, if◌then◌else◌,
  ◌==◌, ==_iff, arith, Bool-cases, All, Some, list_eq, nat_eq,
}
use airjail.Base.Bytes.{Bytes, codes}

-- go-seccomp-bpf's Operation; the others by a number
pub data Operation : Type 0 where
  equal : Operation
  other_operation : ℕ → Operation

-- go-seccomp-bpf's Action: ActionAllow, ActionErrno, and the others by a number
pub data Action : Type 0 where
  action_allow action_errno : Action
  other_action : ℕ → Action

-- go-seccomp-bpf's FilterFlag: FilterFlagTSync, and the others by a number
pub data FilterFlag : Type 0 where
  filter_flag_tsync : FilterFlag
  other_flag : ℕ → FilterFlag

-- one of ArgumentConditions
pub record Condition : Type 0 where
  pub argument : ℕ
  pub operation : Operation
  pub value : ℕ

pub record NameWithConditions : Type 0 where
  pub name : Bytes
  pub conditions : List Condition

pub record SyscallGroup : Type 0 where
  pub action : Action
  pub names : List Bytes
  pub names_with_conditions : List NameWithConditions

pub record SeccompPolicy : Type 0 where
  pub default_action : Action
  pub syscalls : List SyscallGroup

pub record Filter : Type 0 where
  pub no_new_privs : Bool
  pub flag : FilterFlag
  pub policy : SeccompPolicy

-- AF_UNIX and AF_VSOCK
abbrev pub families : List ℕ
families = 1 ∷ 40 ∷ []

unfoldable pub conditions_for : Bytes → List ℕ → List NameWithConditions
conditions_for syscall_name [] = []
conditions_for syscall_name (family ∷ rest) =
    record {
      name = syscall_name;
      conditions = record { argument = 0; operation = equal; value = family } ∷ [];
    }
    ∷ conditions_for syscall_name rest

unfoldable pub blocked_syscalls : Bool → List Bytes
blocked_syscalls is_386 =
    if is_386 then codes "io_uring_setup" ∷ codes "socketcall" ∷ [] else codes "io_uring_setup" ∷ []

-- the one group
unfoldable pub blocked_group : Bool → SyscallGroup
unfolding conditions_for blocked_syscalls
blocked_group is_386 = record {
  action = action_errno;
  names = blocked_syscalls is_386;
  names_with_conditions =
      conditions_for (codes "socket") families ++ conditions_for (codes "socketpair") families;
}

unfoldable pub restricted_socket_filter : Bool → Filter
unfolding blocked_group
restricted_socket_filter is_386 = record {
  no_new_privs = false;
  flag = filter_flag_tsync;
  policy = record { default_action = action_allow; syscalls = blocked_group is_386 ∷ [] };
}

-- What go-seccomp-bpf is: when a condition's operation holds of an argument and a value, each of 64
-- bits, and the action that a loaded filter takes for a call, by its name and its arguments.
pub record Seccomp : Type 0 where
  pub holds : Operation → ℕ → ℕ → Bool
  pub decides : Filter → Bytes → (ℕ → ℕ) → Action

-- a condition holds of the arguments of a call
abbrev pub Meets : Seccomp → (ℕ → ℕ) → Condition → Type 0
Meets seccomp arguments condition =
    seccomp.holds condition.operation (arguments condition.argument) condition.value ≡ true

-- An entry names a call whose arguments meet its conditions.
abbrev pub Names : Seccomp → Bytes → (ℕ → ℕ) → NameWithConditions → Type 0
Names seccomp name arguments entry =
    (entry.name ≡ name) × All (Meets seccomp arguments) entry.conditions

-- A group selects the calls of its names, and of its names with conditions where these hold.
abbrev pub Selects : Seccomp → Bytes → (ℕ → ℕ) → SyscallGroup → Type 0
Selects seccomp name arguments group =
    (Some (λ n. n ≡ name) group.names)
    ⊎ (Some (Names seccomp name arguments) group.names_with_conditions)

-- Equal compares the whole numbers; a policy of one group takes the group's action for the calls that it
-- selects, and the default action for the others.
pub record Documented (seccomp : Seccomp) : Type 0 where
  pub equals : (a b : ℕ) → (seccomp.holds equal a b ≡ true) ↔ (a ≡ b)
  pub taken :
      (filter : Filter) (group : SyscallGroup) (name : Bytes) (arguments : ℕ → ℕ)
      → filter.policy.syscalls ≡ group ∷ []
      → Selects seccomp name arguments group
      → seccomp.decides filter name arguments ≡ group.action
  pub otherwise :
      (filter : Filter) (group : SyscallGroup) (name : Bytes) (arguments : ℕ → ℕ)
      → filter.policy.syscalls ≡ group ∷ []
      → (¬ Selects seccomp name arguments group)
      → seccomp.decides filter name arguments ≡ filter.policy.default_action

-- what the filter denies
abbrev pub Denied : Bool → Bytes → (ℕ → ℕ) → Type 0
Denied is_386 name arguments =
    (name ≡ codes "io_uring_setup")
    ⊎ (((is_386 ≡ true) × (name ≡ codes "socketcall"))
        ⊎ (((name ≡ codes "socket") ⊎ (name ≡ codes "socketpair"))
            × ((arguments 0 ≡ 1) ⊎ (arguments 0 ≡ 40))))

module _ (seccomp : Seccomp) (documented : Documented seccomp) where
  Denied-sound :
      (is_386 : Bool) (name : Bytes) (arguments : ℕ → ℕ)
      → Selects seccomp name arguments (blocked_group is_386)
      → Denied is_386 name arguments
  unfolding blocked_group
  Denied-sound true name arguments (inl (inl e)) = inl (sym e)
  Denied-sound true name arguments (inl (inr (inl e))) = inr (inl (refl, sym e))
  Denied-sound true name arguments (inl (inr (inr e))) = absurd e
  Denied-sound false name arguments (inl (inl e)) = inl (sym e)
  Denied-sound false name arguments (inl (inr e)) = absurd e
  Denied-sound is_386 name arguments (inr (inl (e, a))) =
      inr (inr (inl (sym e), inl ((documented.equals (arguments 0) 1).0 a.0)))
  Denied-sound is_386 name arguments (inr (inr (inl (e, a)))) =
      inr (inr (inl (sym e), inr ((documented.equals (arguments 0) 40).0 a.0)))
  Denied-sound is_386 name arguments (inr (inr (inr (inl (e, a))))) =
      inr (inr (inr (sym e), inl ((documented.equals (arguments 0) 1).0 a.0)))
  Denied-sound is_386 name arguments (inr (inr (inr (inr (inl (e, a)))))) =
      inr (inr (inr (sym e), inr ((documented.equals (arguments 0) 40).0 a.0)))
  Denied-sound is_386 name arguments (inr (inr (inr (inr (inr e))))) = absurd e

  Denied-complete :
      (is_386 : Bool) (name : Bytes) (arguments : ℕ → ℕ)
      → Denied is_386 name arguments
      → Selects seccomp name arguments (blocked_group is_386)
  unfolding blocked_group
  Denied-complete true name arguments (inl e) = inl (inl (sym e))
  Denied-complete false name arguments (inl e) = inl (inl (sym e))
  Denied-complete true name arguments (inr (inl (r, e))) = inl (inr (inl (sym e)))
  Denied-complete false name arguments (inr (inl (r, e))) = absurd (cc)
  Denied-complete is_386 name arguments (inr (inr (inl e, inl a))) =
      inr (inl (sym e, ((documented.equals (arguments 0) 1).1 a, tt)))
  Denied-complete is_386 name arguments (inr (inr (inl e, inr a))) =
      inr (inr (inl (sym e, ((documented.equals (arguments 0) 40).1 a, tt))))
  Denied-complete is_386 name arguments (inr (inr (inr e, inl a))) =
      inr (inr (inr (inl (sym e, ((documented.equals (arguments 0) 1).1 a, tt)))))
  Denied-complete is_386 name arguments (inr (inr (inr e, inr a))) =
      inr (inr (inr (inr (inl (sym e, ((documented.equals (arguments 0) 40).1 a, tt))))))

Denied-cases :
    (is_386 : Bool) (name : Bytes) (arguments : ℕ → ℕ)
    → Denied is_386 name arguments ⊎ (¬ Denied is_386 name arguments)
Denied-cases is_386 name arguments = ground (
  arith,
  ==_iff name (codes "io_uring_setup"),
  ==_iff name (codes "socketcall"),
  ==_iff name (codes "socket"),
  ==_iff name (codes "socketpair"),
  Bool-cases (name == codes "io_uring_setup"),
  Bool-cases (name == codes "socketcall"),
  Bool-cases (name == codes "socket"),
  Bool-cases (name == codes "socketpair"),
  Bool-cases is_386,
)

-- Under the filter, io_uring_setup, socketcall on a 386, and a socket or socketpair whose first argument,
-- as a whole, is the number of the family of Unix or of vsock sockets return an error; every other
-- call is allowed.
pub restricted_socket_filter-denies :
    (seccomp : Seccomp) (is_386 : Bool) (name : Bytes) (arguments : ℕ → ℕ)
    → Documented seccomp
    → (Denied is_386 name arguments
        × (seccomp.decides (restricted_socket_filter is_386) name arguments ≡ action_errno))
      ⊎ ((¬ Denied is_386 name arguments)
          × (seccomp.decides (restricted_socket_filter is_386) name arguments ≡ action_allow))
unfolding restricted_socket_filter
restricted_socket_filter-denies seccomp is_386 name arguments documented =
    let filter = restricted_socket_filter is_386 in
    elim (Denied-cases is_386 name arguments) [
      | inl d ↦ inl (
        d,
        documented.taken filter (blocked_group is_386) name arguments refl
            (Denied-complete seccomp documented is_386 name arguments d),
      )
      | inr d ↦ inr (
        d,
        documented.otherwise filter (blocked_group is_386) name arguments refl
            (λ s. d (Denied-sound seccomp documented is_386 name arguments s)),
      )
    ]
