-- ===== src/Client/Key.antt =====
-- The keys of a router's queues and memory: get_key and get_key_out of
-- src/router/src/router_lib.c, on a machine with 32-bit `int` and the low byte first.
use udaq.Base.{ℕ, zero, suc, ◌+◌, ◌*◌, ◌%◌, ◌<◌, ◌≡◌, List, [], ◌∷◌, ◌++◌, arith}

-- `strncpy(str, name, 4); str[4] = 0x00;` on a name without its end mark.
unfoldable pub first_chars : ℕ → List ℕ → List ℕ
first_chars zero cs = []
first_chars (suc n) [] = []
first_chars (suc n) (c ∷ cs) = c ∷ first_chars n cs

-- `*(int*)str`, of the first four bytes.
abbrev pub int_of : List ℕ → ℕ
int_of (a ∷ b ∷ c ∷ d ∷ cs) = a + 256 * b + 65536 * c + 16777216 * d
int_of _ = 0

-- `strcat(str, "    ")`
abbrev pub spaces : List ℕ
spaces = 32 ∷ 32 ∷ 32 ∷ 32 ∷ []

abbrev pub rtr_word : ℕ
rtr_word = int_of (114 ∷ 116 ∷ 114 ∷ 32 ∷ [])

abbrev pub out_word : ℕ
out_word = int_of (111 ∷ 117 ∷ 116 ∷ 32 ∷ [])

-- The sum of `int`s wraps round.
unfoldable pub get_key : List ℕ → ℕ → ℕ
unfolding first_chars
get_key name uid = (int_of (first_chars 4 name ++ spaces) + rtr_word + uid) % 4294967296

unfoldable pub get_key_out : List ℕ → ℕ → ℕ
unfolding get_key
get_key_out name uid = (get_key name uid + out_word) % 4294967296

-- A name of four characters.
abbrev pub word : ℕ → ℕ → ℕ → ℕ → List ℕ
word a b c d = a ∷ b ∷ c ∷ d ∷ []

-- Two routers of one user whose names have four characters, each a byte, and that share a key have the same
-- name.
get_key-injective :
    (a b c d a' b' c' d' uid : ℕ)
    → a < 256
    → b < 256
    → c < 256
    → d < 256
    → a' < 256
    → b' < 256
    → c' < 256
    → d' < 256
    → get_key (word a b c d) uid ≡ get_key (word a' b' c' d') uid
    → (a ≡ a') × (b ≡ b') × (c ≡ c') × (d ≡ d')
unfolding get_key first_chars
get_key-injective a b c d a' b' c' d' uid ha hb hc hd ha' hb' hc' hd' h =
    (omega arith, omega arith, omega arith, omega arith)
