-- ===== src/Application/ChildEnvironment.antt =====
-- internal/application/application.go, childEnvironment: the proxy variables of the caller are taken
-- out of the child's environment, and airjail's own are put in.
pub mod Settings
use airjail.Base.{
  Bool, true, false, Option, none, some, List, [], ◌∷◌, ◌++◌, if◌then◌else◌, ◌==◌, list_eq, nat_eq,
  contains,
}
use airjail.Base.Bytes.{Bytes, codes, cut}

-- namespace.HTTPAddress and namespace.SOCKAddress
abbrev pub http_address : Bytes
http_address = codes "127.0.0.1:19080"

abbrev pub sock_address : Bytes
sock_address = codes "127.0.0.1:19081"

abbrev pub proxy_names : List Bytes
proxy_names =
    codes "HTTP_PROXY"
    ∷ codes "HTTPS_PROXY"
    ∷ codes "ALL_PROXY"
    ∷ codes "GRPC_PROXY"
    ∷ codes "FTP_PROXY"
    ∷ codes "NO_PROXY"
    ∷ codes "http_proxy"
    ∷ codes "https_proxy"
    ∷ codes "all_proxy"
    ∷ codes "grpc_proxy"
    ∷ codes "ftp_proxy"
    ∷ codes "no_proxy"
    ∷ []

-- the test under which an entry is left out
unfoldable pub is_proxy_setting : Bytes → Bool
is_proxy_setting entry = elim (cut entry b'=') [
  | none ↦ false
  | some setting ↦ contains proxy_names setting.0
]

unfoldable pub keep : List Bytes → List Bytes
unfolding is_proxy_setting
keep [] = []
keep (entry ∷ original) = if is_proxy_setting entry then keep original else entry ∷ keep original

abbrev pub own_settings : List Bytes
own_settings =
    (codes "HTTP_PROXY=http://" ++ http_address)
    ∷ (codes "HTTPS_PROXY=http://" ++ http_address)
    ∷ (codes "ALL_PROXY=http://" ++ http_address)
    ∷ (codes "GRPC_PROXY=http://" ++ http_address)
    ∷ (codes "FTP_PROXY=socks5h://" ++ sock_address)
    ∷ (codes "http_proxy=http://" ++ http_address)
    ∷ (codes "https_proxy=http://" ++ http_address)
    ∷ (codes "all_proxy=http://" ++ http_address)
    ∷ (codes "grpc_proxy=http://" ++ http_address)
    ∷ (codes "ftp_proxy=socks5h://" ++ sock_address)
    ∷ codes "NO_PROXY="
    ∷ codes "no_proxy="
    ∷ []

unfoldable pub child_environment : List Bytes → Bool → List Bytes
unfolding keep
child_environment original false = keep original
child_environment original true = keep original ++ own_settings
