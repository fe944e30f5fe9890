-- ===== src/Auth/Addresses.antt =====
-- The addresses that may call (src/core/auth/ip_validator.go). What the package `net` does with
-- addresses and networks is a parameter.
use Prim.Native.String.{len, find}
use atom_engine.Base.{
  String, Bool, true, false, Option, none, some, List, [], ◌∷◌, length, leb, ltb, if◌then◌else◌,
}
use atom_engine.Auth.{is_localhost}

-- `net.ParseIP` and `Equal`, and `net.ParseCIDR` and `Contains`; `none` is a text that is none.
pub record Net : Type 1 where
  pub Ip : Type 0
  pub Network : Type 0
  pub parse_ip : String → Option Ip
  pub equal : Ip → Ip → Bool
  pub parse_cidr : String → Option Network
  pub contains : Network → Ip → Bool

module _ (net : Net) where
  unfoldable pub check_ip_in_cidr : net.Ip → String → Bool
  check_ip_in_cidr client_ip cidr = elim (net.parse_cidr cidr) [
    | none ↦ false
    | some network ↦ net.contains network client_ip
  ]

  unfoldable pub check_specific_ip : net.Ip → String → Bool
  check_specific_ip client_ip allowed_ip = elim (net.parse_ip allowed_ip) [
    | none ↦ false
    | some allowed ↦ net.equal client_ip allowed
  ]

  -- The loop of `checkIPInList`.
  unfoldable pub is_in_list : net.Ip → List String → Bool
  unfolding check_ip_in_cidr check_specific_ip
  is_in_list client_ip [] = false
  is_in_list client_ip (allowed ∷ rest) =
      let later = is_in_list client_ip rest in
      if leb (find allowed "/") (len allowed)
      then (if check_ip_in_cidr client_ip allowed then true else later)
      else if check_specific_ip client_ip allowed
      then true
      else later

  unfoldable pub check_ip_in_list : String → List String → Bool
  unfolding is_in_list
  check_ip_in_list ip allowed_list = elim (net.parse_ip ip) [
    | none ↦ false
    | some client_ip ↦ is_in_list client_ip allowed_list
  ]

  -- The global list is the validator's state.
  unfoldable pub is_allowed_globally : String → List String → Bool
  unfolding check_ip_in_list
  is_allowed_globally ip global = if is_localhost ip then true else check_ip_in_list ip global

  unfoldable pub validate_ip : String → List String → List String → Bool
  unfolding is_allowed_globally check_ip_in_list
  validate_ip ip allowed_hosts global =
      if is_localhost ip
      then true
      else if ltb 0 (length allowed_hosts)
      then check_ip_in_list ip allowed_hosts
      else is_allowed_globally ip global
