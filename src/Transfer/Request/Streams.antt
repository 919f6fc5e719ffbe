-- ===== src/Transfer/Request/Streams.antt =====
-- The streams of the first version of the protocol in src/router/tools/router_tcp.c.
use udaq.Base.{
  ℕ, ◌<◌, ◌≡◌, ◌≢◌, ◌⊎◌, inl, inr, refl, sym, ◌∙◌, none, some, List, [], ◌∷◌, ◌++◌, length, arith,
}
use mathlib.Core.Path.{subst}
use udaq.Client.Key.{get_key}
use udaq.Tcp.{Read, ntohl}
use udaq.Tcp.Blocks.{pieces, joined}
use udaq.Transfer.{drop, got, read_request}
use udaq.Transfer.Streams.{read_request-joined}
use udaq.Transfer.Server.{router_inet_version_1}
use udaq.Transfer.Request.{
  Host, send_data, serve_stream, router_name, c_string, version_of, ntohs, e_nodev, refuse,
}

-- A request of version 1 for a stream of the unit 0.
abbrev pub Asks : List ℕ → ℕ → Type 0
Asks info1 stream =
    (length info1 ≡ 64)
    × (version_of (ntohl info1) ≡ some router_inet_version_1)
    × (ntohs (drop 4 info1) ≡ 0)
    × (ntohs (drop 6 info1) ≡ stream)

asked :
    (host : Host) (info1 : List ℕ) (stream : ℕ) (cs : List (List ℕ)) (y : List ℕ)
    → Asks info1 stream
    → joined cs ≡ info1 ++ y
    → (ds : List (List ℕ)) × (send_data host (pieces cs) ≡ serve_stream host info1 (pieces ds))
unfolding send_data
asked host info1 stream cs y (n, v, u, s) e =
    let (ds, f, g) = read_request-joined cs info1 y e (omega (arith, n)) in
    let f' = subst (λ k. read_request k (pieces cs) ≡ got info1 (pieces ds)) n f in
    (ds, rw f' (rw v refl))

-- A request of version 1 for the unit 0 and a stream above 5 reads behind the table of names.
send_data-unknown_stream :
    (host : Host) (info1 : List ℕ) (stream : ℕ) (cs : List (List ℕ)) (y : List ℕ)
    → Asks info1 stream
    → 5 < stream
    → joined cs ≡ info1 ++ y
    → send_data host (pieces cs) ≡ none
unfolding serve_stream router_name
send_data-unknown_stream host info1 stream cs y a h e =
    let (ds, f) = asked host info1 stream cs y a e in
    let (n, v, u, s) = a in f ∙ rw (u, s, serve_stream) (ground (arith, h))

abbrev pub bldg : List ℕ
bldg = 66 ∷ 76 ∷ 68 ∷ 71 ∷ []

abbrev pub bldl : List ℕ
bldl = 66 ∷ 76 ∷ 68 ∷ 76 ∷ []

cut_key :
    (uid : ℕ)
    → (get_key (66 ∷ 76 ∷ 68 ∷ []) uid ≢ get_key bldg uid)
      × (get_key (66 ∷ 76 ∷ 68 ∷ []) uid ≢ get_key bldl uid)
unfolding get_key
cut_key uid = ((λ e. absurd (omega (arith, e))), (λ e. absurd (omega (arith, e))))

-- The stream of a router of the event builder.
abbrev pub IsBuilder : ℕ → List ℕ → Type 0
IsBuilder stream name = ((stream ≡ 1) × (name ≡ bldg)) ⊎ ((stream ≡ 5) × (name ≡ bldl))

serve-builder :
    (host : Host) (info1 : List ℕ) (stream : ℕ) (name : List ℕ) (rs : List Read)
    → Asks info1 stream
    → IsBuilder stream name
    → ((n : List ℕ) (mode : ℕ)
        → get_key n host.getuid ≢ get_key name host.getuid
        → host.router_connect n host.getuid mode ≡ none)
    → serve_stream host info1 rs ≡ some (refuse host e_nodev)
unfolding serve_stream router_name c_string
serve-builder host info1 stream name rs (n, v, u, s) (inl (a, b)) only =
    let differs =
      subst (λ k. get_key (66 ∷ 76 ∷ 68 ∷ []) host.getuid ≢ get_key k host.getuid) (sym b)
        (cut_key host.getuid).0 in
    rw (u, s ∙ a) (rw (only (66 ∷ 76 ∷ 68 ∷ []) (ntohl (drop 8 info1)) differs) refl)
serve-builder host info1 stream name rs (n, v, u, s) (inr (a, b)) only =
    let differs =
      subst (λ k. get_key (66 ∷ 76 ∷ 68 ∷ []) host.getuid ≢ get_key k host.getuid) (sym b)
        (cut_key host.getuid).1 in
    rw (u, s ∙ a) (rw (only (66 ∷ 76 ∷ 68 ∷ []) (ntohl (drop 8 info1)) differs) refl)

-- A request of version 1 for the stream of the router BLDG or BLDL is refused, as if the router were not there, where
-- no router but that one is there: the name is cut to BLD, which has another key.
pub send_data-builder :
    (host : Host) (info1 : List ℕ) (stream : ℕ) (name : List ℕ) (cs : List (List ℕ)) (y : List ℕ)
    → Asks info1 stream
    → IsBuilder stream name
    → ((n : List ℕ) (mode : ℕ)
        → get_key n host.getuid ≢ get_key name host.getuid
        → host.router_connect n host.getuid mode ≡ none)
    → joined cs ≡ info1 ++ y
    → send_data host (pieces cs) ≡ some (refuse host e_nodev)
send_data-builder host info1 stream name cs y a b only e =
    let (ds, f) = asked host info1 stream cs y a e in
    f ∙ serve-builder host info1 stream name (pieces ds) a b only
