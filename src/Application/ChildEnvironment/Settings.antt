-- ===== src/Application/ChildEnvironment/Settings.antt =====
-- The variables of the child, as internal/outbound's environmentMap reads them.
use airjail.Base.{
  Bool, true, false, none, some, List, [], ◌∷◌, ◌++◌, ◌≡◌, refl, subst, sym, ◌∙◌, inl, inr, arith,
  All, if◌then◌else◌, ◌==◌, ==_iff, list_eq, nat_eq, contains, Bool-cases, Option-cases,
}
use airjail.Base.Bytes.{Bytes, codes, cut}
use airjail.Outbound.Environment.{value_of, fill, environment_map}
use airjail.Outbound.Environment.Values.{Unset, fill-append, value_of-fill}
use airjail.Application.ChildEnvironment.{
  http_address, sock_address, proxy_names, is_proxy_setting, keep, own_settings, child_environment,
}

-- the name and the value of each of airjail's variables
abbrev pub own_values : List (Bytes × Bytes)
own_values =
    (codes "HTTP_PROXY", codes "http://127.0.0.1:19080")
    ∷ (codes "HTTPS_PROXY", codes "http://127.0.0.1:19080")
    ∷ (codes "ALL_PROXY", codes "http://127.0.0.1:19080")
    ∷ (codes "GRPC_PROXY", codes "http://127.0.0.1:19080")
    ∷ (codes "http_proxy", codes "http://127.0.0.1:19080")
    ∷ (codes "https_proxy", codes "http://127.0.0.1:19080")
    ∷ (codes "all_proxy", codes "http://127.0.0.1:19080")
    ∷ (codes "grpc_proxy", codes "http://127.0.0.1:19080")
    ∷ (codes "FTP_PROXY", codes "socks5h://127.0.0.1:19081")
    ∷ (codes "ftp_proxy", codes "socks5h://127.0.0.1:19081")
    ∷ (codes "NO_PROXY", [])
    ∷ (codes "no_proxy", [])
    ∷ []

value_of-own_settings :
    (original : List Bytes)
    → All (λ s. value_of (environment_map (child_environment original true)) s.0 ≡ s.1) own_values
unfolding environment_map child_environment fill value_of cut airjail.Base.list_beq
value_of-own_settings original = rw (fill-append (keep original) own_settings []) (
  refl,
  (refl, (refl, (refl, (refl, (refl, (refl, (refl, (refl, (refl, (refl, (refl, tt))))))))))),
)

-- what a filtered environment says of a name, over maps that agree on it
value_of-keep :
    (original : List Bytes) (name : Bytes) (values : List (Bytes × Bytes))
    (others : List (Bytes × Bytes))
    → contains proxy_names name ≡ false
    → value_of values name ≡ value_of others name
    → value_of (fill (keep original) values) name ≡ value_of (fill original others) name
unfolding keep is_proxy_setting fill value_of
value_of-keep [] name values others plain agree = agree
value_of-keep (entry ∷ original) name values others plain agree =
    elim (Option-cases (cut entry b'=')) [
      | inl e ↦ ground (arith, e, value_of-keep original name values others plain agree)
      | inr (setting, e) ↦ elim (Bool-cases (contains proxy_names setting.0)) [
        | inl dropped ↦
            let other : (setting.0 == name) ≡ false = elim (Bool-cases (setting.0 == name)) [
              | inr differs ↦ differs
              | inl same ↦ absurd (ground (arith, dropped, plain, (==_iff setting.0 name).0 same))
            ] in
            let shadowed : value_of values name ≡ value_of (setting ∷ others) name =
              ground (arith, other, agree) in
            ground (
              arith,
              e,
              dropped,
              value_of-keep original name values (setting ∷ others) plain shadowed,
            )
        | inr kept ↦
            let both : value_of (setting ∷ values) name ≡ value_of (setting ∷ others) name =
              ground (arith, agree) in
            ground (
              arith,
              e,
              kept,
              value_of-keep original name (setting ∷ values) (setting ∷ others) plain both,
            )
      ]
    ]

value_of-keep_proxy :
    (original : List Bytes) (name : Bytes) (values : List (Bytes × Bytes))
    → contains proxy_names name ≡ true
    → value_of (fill (keep original) values) name ≡ value_of values name
unfolding keep is_proxy_setting fill value_of
value_of-keep_proxy [] name values proxy = refl
value_of-keep_proxy (entry ∷ original) name values proxy = elim (Option-cases (cut entry b'=')) [
  | inl e ↦ ground (arith, e, value_of-keep_proxy original name values proxy)
  | inr (setting, e) ↦ elim (Bool-cases (contains proxy_names setting.0)) [
    | inl dropped ↦ ground (arith, e, dropped, value_of-keep_proxy original name values proxy)
    | inr kept ↦
        let other : (setting.0 == name) ≡ false = elim (Bool-cases (setting.0 == name)) [
          | inr differs ↦ differs
          | inl same ↦ absurd (ground (arith, kept, proxy, (==_iff setting.0 name).0 same))
        ] in
        ground (arith, e, kept, other, value_of-keep_proxy original name (setting ∷ values) proxy)
  ]
]

value_of-child_environment-direct :
    (original : List Bytes) (name : Bytes)
    → contains proxy_names name ≡ true
    → value_of (environment_map (child_environment original false)) name ≡ []
unfolding environment_map child_environment value_of
value_of-child_environment-direct original name proxy = value_of-keep_proxy original name [] proxy

-- an entry that sets a proxy variable sets no other
Unset-proxy :
    (name proxy value entry : Bytes)
    → contains proxy_names name ≡ false
    → contains proxy_names proxy ≡ true
    → cut entry b'=' ≡ some (proxy, value)
    → Unset name entry
Unset-proxy name proxy value entry plain known sets other e =
    let same : proxy ≡ name = cc in
    absurd (ground (arith, plain, subst (λ n. contains proxy_names n ≡ true) same known))

AllUnset-own_settings :
    (name : Bytes) → contains proxy_names name ≡ false → All (Unset name) own_settings
unfolding cut contains airjail.Base.list_beq
AllUnset-own_settings name plain = (
  Unset-proxy name (codes "HTTP_PROXY") (codes "http://" ++ http_address)
      (codes "HTTP_PROXY=http://" ++ http_address) plain refl refl,
  (
    Unset-proxy name (codes "HTTPS_PROXY") (codes "http://" ++ http_address)
        (codes "HTTPS_PROXY=http://" ++ http_address) plain refl refl,
    (
      Unset-proxy name (codes "ALL_PROXY") (codes "http://" ++ http_address)
          (codes "ALL_PROXY=http://" ++ http_address) plain refl refl,
      (
        Unset-proxy name (codes "GRPC_PROXY") (codes "http://" ++ http_address)
            (codes "GRPC_PROXY=http://" ++ http_address) plain refl refl,
        (
          Unset-proxy name (codes "FTP_PROXY") (codes "socks5h://" ++ sock_address)
              (codes "FTP_PROXY=socks5h://" ++ sock_address) plain refl refl,
          (
            Unset-proxy name (codes "http_proxy") (codes "http://" ++ http_address)
                (codes "http_proxy=http://" ++ http_address) plain refl refl,
            (
              Unset-proxy name (codes "https_proxy") (codes "http://" ++ http_address)
                  (codes "https_proxy=http://" ++ http_address) plain refl refl,
              (
                Unset-proxy name (codes "all_proxy") (codes "http://" ++ http_address)
                    (codes "all_proxy=http://" ++ http_address) plain refl refl,
                (
                  Unset-proxy name (codes "grpc_proxy") (codes "http://" ++ http_address)
                      (codes "grpc_proxy=http://" ++ http_address) plain refl refl,
                  (
                    Unset-proxy name (codes "ftp_proxy") (codes "socks5h://" ++ sock_address)
                        (codes "ftp_proxy=socks5h://" ++ sock_address) plain refl refl,
                    (
                      Unset-proxy name (codes "NO_PROXY") [] (codes "NO_PROXY=") plain refl refl,
                      (
                        Unset-proxy name (codes "no_proxy") [] (codes "no_proxy=") plain refl refl,
                        tt,
                      ),
                    ),
                  ),
                ),
              ),
            ),
          ),
        ),
      ),
    ),
  ),
)

value_of-child_environment-other :
    (original : List Bytes) (mode : Bool) (name : Bytes)
    → contains proxy_names name ≡ false
    → value_of (environment_map (child_environment original mode)) name
      ≡ value_of (environment_map original) name
unfolding environment_map child_environment
value_of-child_environment-other original false name plain =
    value_of-keep original name [] [] plain refl
value_of-child_environment-other original true name plain =
    rw (fill-append (keep original) own_settings []) (
      value_of-fill own_settings (fill (keep original) []) name (AllUnset-own_settings name plain)
      ∙ value_of-keep original name [] [] plain refl)

abbrev pub LeadsToProxies : List Bytes → Type 0
LeadsToProxies environment = All (λ s. value_of (environment_map environment) s.0 ≡ s.1) own_values

abbrev pub HasNoProxies : List Bytes → Type 0
HasNoProxies environment = All (λ s. value_of (environment_map environment) s.0 ≡ []) own_values

pub child_environment-LeadsToProxies :
    (original : List Bytes) → LeadsToProxies (child_environment original true)
child_environment-LeadsToProxies original = value_of-own_settings original

pub child_environment-HasNoProxies :
    (original : List Bytes) → HasNoProxies (child_environment original false)
unfolding contains airjail.Base.list_beq
child_environment-HasNoProxies original =
    let none_for : (name : Bytes)
        → contains proxy_names name ≡ true
        → value_of (environment_map (child_environment original false)) name ≡ [] =
      value_of-child_environment-direct original in
    (
      none_for (codes "HTTP_PROXY") refl,
      (
        none_for (codes "HTTPS_PROXY") refl,
        (
          none_for (codes "ALL_PROXY") refl,
          (
            none_for (codes "GRPC_PROXY") refl,
            (
              none_for (codes "http_proxy") refl,
              (
                none_for (codes "https_proxy") refl,
                (
                  none_for (codes "all_proxy") refl,
                  (
                    none_for (codes "grpc_proxy") refl,
                    (
                      none_for (codes "FTP_PROXY") refl,
                      (
                        none_for (codes "ftp_proxy") refl,
                        (none_for (codes "NO_PROXY") refl, (none_for (codes "no_proxy") refl, tt)),
                      ),
                    ),
                  ),
                ),
              ),
            ),
          ),
        ),
      ),
    )

-- Whatever the caller's environment is: with proxies each of the twelve proxy variables has airjail's
-- value, without proxies none of them has a value, and in both cases a variable of another name has
-- the value that it has in the caller's environment.
pub value_of-child_environment-own :
    (original : List Bytes) (other : Bytes)
    → contains proxy_names other ≡ false
    → LeadsToProxies (child_environment original true)
      × HasNoProxies (child_environment original false)
      × ((mode : Bool)
          → value_of (environment_map (child_environment original mode)) other
            ≡ value_of (environment_map original) other)
value_of-child_environment-own original other plain = (
  child_environment-LeadsToProxies original,
  child_environment-HasNoProxies original,
  λ mode. value_of-child_environment-other original mode other plain,
)
