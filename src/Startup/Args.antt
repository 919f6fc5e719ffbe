-- ===== src/Startup/Args.antt =====
-- The command line of the router, as `main` of src/router/src/router.c reads it. A string is the list
-- of its character codes; `usage` and the messages are left out.
use udaq.Base.{
  ℕ, zero, suc, ◌+◌, ◌-◌, ◌*◌, ◌≡◌, refl, ◌∙◌, Bool, true, false, not, ◌&&◌, Option, none, some,
  List, [], ◌∷◌, ◌++◌, ◌==◌, leb, if◌then◌else◌, ℤ, pos, negsuc,
}

-- `argv[i]`
abbrev pub Arg : Type 0
Arg = List ℕ

abbrev minus : ℕ
minus = 45

abbrev letter_b : ℕ
letter_b = 98

abbrev letter_r : ℕ
letter_r = 114

-- The digits that a string starts with, after the value read so far.
unfoldable digits : ℕ → List ℕ → ℕ
digits n [] = n
digits n (c ∷ cs) =
    let rest = digits (10 * n + (c - 48)) cs in if leb 48 c && leb c 57 then rest else n

-- `atoi` on a string without blanks or a plus before the number.
unfoldable pub atoi : List ℕ → ℤ
unfolding digits
atoi [] = pos 0
atoi (c ∷ cs) = if c == minus then negative (digits 0 cs) else pos (digits 0 (c ∷ cs))
  where
    negative : ℕ → ℤ
    negative zero = pos 0
    negative (suc n) = negsuc n

-- What the arguments ask for.
pub record Settings : Type 0 where
  pub shmsize : ℕ
  pub rflag : Bool

-- `main` ends with `usage` or a message and status 1, or goes on with the name of the router.
pub data Parsed : Type 0 where
  exits : Parsed
  named : Settings → Arg → Parsed

abbrev pub starts_with_minus : Arg → Bool
starts_with_minus [] = false
starts_with_minus (c ∷ cs) = c == minus

-- `atoi(argv[1])*0x400`, and none where it is not positive.
abbrev pub positive : ℤ → Option ℕ
positive (pos zero) = none
positive (pos (suc n)) = some (suc n * 1024)
positive (negsuc n) = none

-- `if(strlen(*argv)>4) (*argv)[4] = 0x00;`
unfoldable pub cut_name : Arg → Arg
cut_name (a ∷ b ∷ c ∷ d ∷ e ∷ cs) = a ∷ b ∷ c ∷ d ∷ []
cut_name cs = cs

abbrev pub flag_of : Arg → Option ℕ
flag_of (m ∷ c ∷ []) = some c
flag_of _ = none

abbrev sized_by : Option ℕ → Settings → Settings
sized_by none s = s
sized_by (some n) s = record s { shmsize = n }

abbrev or_exits : Option ℕ → Parsed → Parsed
or_exits none next = exits
or_exits (some n) next = next

-- The loop over the arguments that start with a minus, and the name after it.
unfoldable pub parse_args : List Arg → Settings → Parsed
unfolding atoi cut_name
parse_args [] s = exits
parse_args (a ∷ []) s = if starts_with_minus a then exits else named s (cut_name a)
parse_args (a ∷ b ∷ more) s =
    let skip_one = parse_args (b ∷ more) (record s { rflag = true }) in
    let size = positive (atoi b) in
    let skip_two = parse_args more (sized_by size s) in
    if not (starts_with_minus a) then named s (cut_name a) else elim (flag_of a) [
      | none ↦ exits
      | some c ↦
          if c == letter_b
          then or_exits size skip_two
          else if c == letter_r
          then skip_one
          else exits
    ]

-- An option with what it sets.
pub data Choice : Type 0 where
  remove_old : Choice
  size_in_kb : Arg → ℕ → Choice

abbrev pub written : Choice → List Arg
written remove_old = (minus ∷ letter_r ∷ []) ∷ []
written (size_in_kb text n) = (minus ∷ letter_b ∷ []) ∷ text ∷ []

abbrev pub all_written : List Choice → List Arg
all_written [] = []
all_written (o ∷ os) = written o ++ all_written os

-- The text of a size reads as the size, which is not 0.
abbrev pub IsChoice : Choice → Type 0
IsChoice remove_old = Unit {0}
IsChoice (size_in_kb text n) = atoi text ≡ pos (suc n)

abbrev pub AreChoices : List Choice → Type 0
AreChoices [] = Unit {0}
AreChoices (o ∷ os) = IsChoice o × AreChoices os

abbrev pub chosen : List Choice → Settings → Settings
chosen [] s = s
chosen (remove_old ∷ os) s = chosen os (record s { rflag = true })
chosen (size_in_kb text n ∷ os) s = chosen os (record s { shmsize = suc n * 1024 })

read_remove_old :
    (more : List Arg) (s : Settings)
    → parse_args ((minus ∷ letter_r ∷ []) ∷ more) s ≡ parse_args more (record s { rflag = true })
unfolding parse_args
read_remove_old [] s = refl
read_remove_old (b ∷ more) s = refl

read_size_in_kb :
    (text : Arg) (more : List Arg) (s : Settings)
    → parse_args ((minus ∷ letter_b ∷ []) ∷ text ∷ more) s
      ≡ or_exits (positive (atoi text)) (parse_args more (sized_by (positive (atoi text)) s))
unfolding parse_args
read_size_in_kb text more s = refl

-- A command line of well-formed options and a name is accepted: every option takes effect, the last of
-- its kind counts, and the name is cut to four characters.
parse_args-all_written :
    (os : List Choice) (name : Arg) (s : Settings)
    → AreChoices os
    → starts_with_minus name ≡ false
    → parse_args (all_written os ++ name ∷ []) s ≡ named (chosen os s) (cut_name name)
unfolding parse_args
parse_args-all_written [] name s v h = rw (h, parse_args) refl
parse_args-all_written (remove_old ∷ os) name s v h =
    read_remove_old (all_written os ++ name ∷ []) s
    ∙ parse_args-all_written os name (record s { rflag = true }) v.1 h
parse_args-all_written (size_in_kb text n ∷ os) name s v h =
    read_size_in_kb text (all_written os ++ name ∷ []) s
    ∙ rw v.0 (parse_args-all_written os name (record s { shmsize = suc n * 1024 }) v.1 h)
