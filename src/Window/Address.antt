-- ===== src/Window/Address.antt =====
-- The address in the local network and the content of the QR code (linux/src/main_window.cpp).
use harness_desktop.Base.{
  ◌≡◌, refl, sym, subst, ap, ◌∙◌, Bool, true, false, not, ◌||◌, ◌&&◌, ◌==◌, List, [], ◌∷◌, ◌++◌,
  Option, none, some, Bytes, bytes_eq, codes, is_empty, starts_with, if◌then◌else◌, Bool-cases,
  if-elim, inl, inr, arith,
}
use harness_desktop.Base.Find.{occurs_first, find?-first, drop-append, take_self}
use harness_desktop.Window.Relay.{
  Interface, is_private, address_if_private, candidate, first_of, is_primary, or_nothing,
  lan_address_from, local_lan_address, default_route_interface, before_slash, scheme_and_host,
  qr_text, pairing_qr_content,
}

-- 192.168.*, 10.* and 172.*, the addresses that the program takes for private
abbrev pub has_private_prefix : Bytes → Bool
has_private_prefix s =
    starts_with (codes "192.168.") s
    || (starts_with (codes "10.") s || starts_with (codes "172.") s)

-- The address of an interface that is up, with IPv4, no loopback and no point-to-point link.
abbrev pub eligible : Interface → Option Bytes
eligible i = elim (i.address) [
  | none ↦ none
  | some s ↦
      if i.is_up
        && (i.is_inet
            && (not (i.is_loopback) && (not (i.is_point_to_point) && has_private_prefix s)))
      then some s
      else none
]

abbrev pub some_or : Option Bytes → Option Bytes → Option Bytes
some_or none o = o
some_or (some s) o = some s

-- The first eligible address of an interface with the name, and the first one of any interface.
abbrev pub named_address : Bytes → List Interface → Option Bytes
named_address primary [] = none
named_address primary (i ∷ is) =
    let later = named_address primary is in
    if not (is_empty primary) && bytes_eq (i.name) primary
    then some_or (eligible i) later
    else later

abbrev pub any_address : List Interface → Option Bytes
any_address [] = none
any_address (i ∷ is) = some_or (eligible i) (any_address is)

address_if_private-prefix :
    (s : Bytes) → address_if_private (some s) ≡ (if has_private_prefix s then some s else none)
unfolding address_if_private is_private
address_if_private-prefix s = refl

eligible_address :
    (a : Option Bytes) (inet up loopback link : Bool)
    → (if not inet || (not up || (loopback || link)) then none else address_if_private a)
      ≡ (elim a [
        | none ↦ none
        | some s ↦
            if up && (inet && (not loopback && (not link && has_private_prefix s)))
            then some s
            else none
      ])
unfolding address_if_private
eligible_address none inet up loopback link =
    if-elim (λ o. o ≡ none) (not inet || (not up || (loopback || link))) (λ _. refl) (λ _. refl)
eligible_address (some s) false false loopback link = refl
eligible_address (some s) false true loopback link = refl
eligible_address (some s) true false loopback link = refl
eligible_address (some s) true true true link = refl
eligible_address (some s) true true false true = refl
eligible_address (some s) true true false false = address_if_private-prefix s

candidate-eligible : (i : Interface) → candidate i ≡ eligible i
unfolding candidate
candidate-eligible i =
    eligible_address (i.address) (i.is_inet) (i.is_up) (i.is_loopback) (i.is_point_to_point)

abbrev found_before : Bytes → Option Bytes → Option Bytes
found_before fallback o = if is_empty fallback then o else some fallback

is_empty-is_private : (s : Bytes) → is_private s ≡ true → is_empty s ≡ false
unfolding is_private starts_with
is_empty-is_private [] h = cc
is_empty-is_private (c ∷ s) h = refl

abbrev IsShown : Option Bytes → Type 0
IsShown none = Unit
IsShown (some s) = is_empty s ≡ false

IsShown-if : (s : Bytes) → IsShown (if is_private s then some s else none)
IsShown-if s = if-elim IsShown (is_private s) (λ h. is_empty-is_private s h) (λ _. tt)

IsShown-address_if_private : (o : Option Bytes) → IsShown (address_if_private o)
unfolding address_if_private
IsShown-address_if_private none = tt
IsShown-address_if_private (some s) = IsShown-if s

IsShown-candidate : (i : Interface) → IsShown (candidate i)
unfolding candidate
IsShown-candidate i =
    if-elim IsShown (not (i.is_inet) || (not (i.is_up) || (i.is_loopback || i.is_point_to_point)))
      (λ _. tt) (λ _. IsShown-address_if_private (i.address))

found_before-first_of :
    (fallback : Bytes) (c o : Option Bytes)
    → IsShown c
    → found_before (first_of fallback c) o ≡ found_before fallback (some_or c o)
found_before-first_of fallback none o h = refl
found_before-first_of [] (some s) o h = rw h refl
found_before-first_of (b ∷ fallback) (some s) o h = refl

abbrev pub preferred : Option Bytes → Option Bytes → Bytes
preferred named any = or_nothing (some_or named any)

preferred-primary :
    (primary : Bytes) (i : Interface) (c o : Option Bytes)
    → is_primary primary i c ≡ true
    → or_nothing c ≡ preferred c o
preferred-primary primary i none o h = cc
preferred-primary primary i (some s) o h = refl

or_nothing-found_before : (fallback : Bytes) → fallback ≡ or_nothing (found_before fallback none)
or_nothing-found_before [] = refl
or_nothing-found_before (c ∷ s) = refl

named-primary :
    (primary : Bytes) (i : Interface) (c later : Option Bytes)
    → (if is_primary primary i c then c else later)
      ≡ (if not (is_empty primary) && bytes_eq (i.name) primary then some_or c later else later)
named-primary primary i none later =
    if-elim (λ o. later ≡ o) (not (is_empty primary) && bytes_eq (i.name) primary) (λ _. refl)
      (λ _. refl)
named-primary primary i (some s) later = refl

lan_address_from-preferred :
    (primary fallback : Bytes) (is : List Interface)
    → lan_address_from primary fallback is
      ≡ preferred (named_address primary is) (found_before fallback (any_address is))
unfolding lan_address_from
lan_address_from-preferred primary fallback [] = or_nothing-found_before fallback
lan_address_from-preferred primary fallback (i ∷ is) =
    let c = eligible i in
    let shown : IsShown c = subst IsShown (candidate-eligible i) (IsShown-candidate i) in
    rw (candidate-eligible i) (
      rw (sym (named-primary primary i c (named_address primary is)))
        (elim (Bool-cases (is_primary primary i c)) [
          | inl e ↦ rw e (preferred-primary primary i c _ e)
          | inr e ↦ rw e (
              lan_address_from-preferred primary (first_of fallback c) is
              ∙ ap (preferred (named_address primary is))
                  (found_before-first_of fallback c (any_address is) shown))
        ]))

-- LocalLANAddress goes through the interfaces once and returns what a search in two passes finds among
-- the IPv4 addresses that start with 192.168., 10. or 172. of interfaces that are up, no loopback and no
-- point-to-point link: the first one of an interface with the name of the default route, if there is a
-- default route; else the first one of any interface; else nothing.
pub local_lan_address-preferred :
    (interfaces : List Interface) (routes : Option Bytes)
    → local_lan_address (some interfaces) routes
      ≡ preferred
          (named_address (default_route_interface routes) interfaces)
          (any_address interfaces)
unfolding local_lan_address
local_lan_address-preferred interfaces routes =
    lan_address_from-preferred (default_route_interface routes) [] interfaces

abbrev pub has_no_slash : Bytes → Bool
has_no_slash [] = true
has_no_slash (c ∷ s) = not (c == b'/') && has_no_slash s

-- nothing, or a path
abbrev pub is_path : Bytes → Bool
is_path [] = true
is_path (c ∷ s) = c == b'/'

before_slash-host :
    (host path : Bytes)
    → has_no_slash host ≡ true
    → is_path path ≡ true
    → before_slash (host ++ path) ≡ host
unfolding before_slash
before_slash-host [] [] h p = refl
before_slash-host [] (c ∷ s) h p = rw p refl
before_slash-host (c ∷ host) path h p =
    let e : (c == b'/') ≡ false = ground arith in
    let rest = before_slash-host host path (ground arith) p in rw (e, rest) refl

-- The QR code of a relay address with a scheme shows the scheme and the host, without the path.
pub pairing_qr_content-url :
    (scheme host path id lan : Bytes)
    → occurs_first (codes "://") scheme ≡ true
    → has_no_slash host ≡ true
    → is_path path ≡ true
    → pairing_qr_content (scheme ++ (codes "://" ++ (host ++ path))) id lan
      ≡ qr_text scheme host id lan
unfolding pairing_qr_content
pairing_qr_content-url scheme host path id lan first plain p =
    let url = scheme ++ (codes "://" ++ (host ++ path)) in
    let found = find?-first b':' (b'/' ∷ b'/' ∷ []) scheme (host ++ path) first in
    let Content : Bytes × Bytes → Bytes = λ r. qr_text r.0 (before_slash r.1) id lan in
    ap (λ o. Content (scheme_and_host url o)) found
    ∙ ((λ i. Content (
      take_self scheme (codes "://" ++ (host ++ path)) i,
      drop-append scheme (codes "://" ++ (host ++ path)) 3 i,
    ))
        ∙ ap (λ h. qr_text scheme h id lan) (before_slash-host host path plain p))
