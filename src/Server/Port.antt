-- ===== src/Server/Port.antt =====
-- TcpProbe, LooksLikeDshWeb and ResolvePort of linux/src/server_manager.cpp.
use harness_desktop.Base.{
  ℕ, zero, suc, ◌+◌, ◌%◌, Bool, false, ◌&&◌, ◌||◌, ◌==◌, ◌++◌, Option, none, some, Bytes, codes,
  contains, if◌then◌else◌,
}
use harness_desktop.Base.Decimal.{decimal}
use harness_desktop.Settings.{Settings}

-- The answer to a GET: its status and its content type.
pub record Response : Type 0 where
  pub status : ℕ
  pub content_type : Option Bytes

-- What the network answers, by how many requests were made before: whether a connection to a host
-- and a port is accepted, and the response to a GET.
pub record Network : Type 0 where
  pub listens : ℕ → Bytes → ℕ → Bool
  pub responds : ℕ → Bytes → Option Response

-- the test in LooksLikeDshWeb
unfoldable pub is_dsh_response : Response → Bool
unfolding contains
is_dsh_response r =
    let html : Bool = elim (r.content_type) [
      | none ↦ false
      | some t ↦ contains (codes "text/html") t
    ] in
    (r.status == 200 && html) || r.status == 401

module _ (net : Network) where
  -- LooksLikeDshWeb
  unfoldable pub looks_like_dsh_web : ℕ → Bytes → ℕ → Bool
  unfolding is_dsh_response
  looks_like_dsh_web clock host port =
      let page = codes "http://" ++ (host ++ (codes ":" ++ (decimal port ++ codes "/"))) in
      elim (net.responds clock page) [ none ↦ false | some r ↦ is_dsh_response r ]

  module _ (s : Settings) where
    -- The loop of ResolvePort, with the tries left, the number of requests and `port`; the type of
    -- `port` is unsigned short. The result is the port and the number of requests.
    unfoldable pub walk_ports : ℕ → ℕ → ℕ → ℕ × ℕ
    walk_ports zero clock port = (s.port, clock)
    walk_ports (suc tries) clock port =
        let p = if port == 0 then 1024 else port in
        let rest = walk_ports tries (suc clock) ((p + 1) % 65536) in
        if net.listens clock (s.host) p then rest else (p, suc clock)

    -- ResolvePort
    unfoldable pub resolve_port : ℕ × ℕ
    unfolding walk_ports looks_like_dsh_web
    resolve_port =
        if net.listens 0 (s.host) (s.port)
        then (if looks_like_dsh_web 1 (s.host) (s.port)
            then (s.port, 2)
            else walk_ports 100 2 (s.port))
        else walk_ports 100 1 (s.port)
