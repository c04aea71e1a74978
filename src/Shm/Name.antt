-- ===== src/Shm/Name.antt =====
-- posixipc_shm_validate_name of src/core/posixipc_shm.c, with its users posixipc_mq_validate_name
-- and posixipc_nsem_validate_name. A name is a list of bytes, without its NUL.
use posixipc.Prelude.{
  ℕ, ◌≤◌, ◌≡◌, ◌≢◌, refl, arith, Bool, false, ◌||◌, ◌&&◌, Option, none, some, [], ◌∷◌, length, ltb,
  ◌==◌, ◌!=◌, if◌then◌else◌, ◌-◌,
}
use mathlib.Core.Logic.{◌↔◌}
use posixipc.Codes.{success, einval, enametoolong}
use posixipc.Os.{Name}

-- '/', '.' and NAME_MAX
abbrev pub slash : ℕ
slash = 47

abbrev pub dot : ℕ
dot = 46

abbrev pub name_max : ℕ
name_max = 255

-- `strchr(rest, '/') != NULL`
has_slash : Name → Bool
has_slash [] = false
has_slash (b ∷ bs) = b == slash || has_slash bs

-- `strcmp(rest, ".") == 0 || strcmp(rest, "..") == 0`
is_dots : Name → Bool
is_dots (a ∷ []) = a == dot
is_dots (a ∷ b ∷ []) = a == dot && b == dot
is_dots _ = false

-- the tests from `rest` on
validate_rest : Name → ℕ
unfolding has_slash is_dots
validate_rest [] = einval
validate_rest (b ∷ bs) =
    if has_slash (b ∷ bs)
    then einval
    else if is_dots (b ∷ bs)
    then einval
    else if ltb name_max (length (b ∷ bs))
    then enametoolong
    else success

-- `none` for a NULL `name`
unfoldable pub validate_name : Option Name → ℕ
unfolding validate_rest
validate_name none = einval
validate_name (some []) = einval
validate_name (some (b ∷ rest)) = if b != slash then einval else validate_rest rest

-- `posixipc_mq_validate_name`
unfoldable pub validate_mq_name : Option Name → ℕ
unfolding validate_name
validate_mq_name name =
    let rc = validate_name name in
    if rc != success then rc else elim name [
      | none ↦ einval
      | some n ↦ if ltb name_max (length n - 1) then enametoolong else success
    ]

-- `posixipc_nsem_validate_name`, by POSIXIPC_LIBC_FAMILY
unfoldable pub validate_nsem_name : ℕ → Option Name → ℕ
unfolding validate_name
validate_nsem_name libc_family name =
    let rc = validate_name name in
    if rc != success then rc else elim name [
      | none ↦ einval
      | some n ↦
          if libc_family == 1 && ltb (name_max - 4) (length n - 1) then enametoolong else success
    ]

-- no byte of the list is a slash
abbrev pub NoSlash : Name → Type 0
NoSlash [] = Unit {0}
NoSlash (b ∷ bs) = (b ≢ slash) × NoSlash bs

-- A portable name of an object: a slash and from 1 to 255 bytes that are none, "/." and "/.." aside.
pub record IsRest (rest : Name) : Type 0 where
  pub nonempty : rest ≢ []
  pub no_slash : NoSlash rest
  pub no_dot : rest ≢ dot ∷ []
  pub no_dots : rest ≢ dot ∷ dot ∷ []
  pub short : length rest ≤ name_max

has_slash-NoSlash : (bs : Name) → has_slash bs ≡ false → NoSlash bs
unfolding has_slash
has_slash-NoSlash [] h = tt
has_slash-NoSlash (b ∷ bs) h = (ground arith, has_slash-NoSlash bs (ground arith))

NoSlash-has_slash : (bs : Name) → NoSlash bs → has_slash bs ≡ false
unfolding has_slash
NoSlash-has_slash [] h = refl
NoSlash-has_slash (b ∷ bs) (ne, h) = ground (arith, NoSlash-has_slash bs h)

is_dots-false : (bs : Name) → is_dots bs ≡ false → (bs ≢ dot ∷ []) × (bs ≢ dot ∷ dot ∷ [])
unfolding is_dots
is_dots-false [] h = (λ e. cc, λ e. cc)
is_dots-false (a ∷ []) h = ground arith
is_dots-false (a ∷ b ∷ []) h = ground arith
is_dots-false (a ∷ b ∷ d ∷ bs) h = ground arith

is_dots-ne : (bs : Name) → bs ≢ dot ∷ [] → bs ≢ dot ∷ dot ∷ [] → is_dots bs ≡ false
unfolding is_dots
is_dots-ne [] h k = refl
is_dots-ne (a ∷ []) h k = ground arith
is_dots-ne (a ∷ b ∷ []) h k = ground arith
is_dots-ne (a ∷ b ∷ d ∷ bs) h k = refl

validate_rest-success :
    (b : ℕ) (bs : Name)
    → validate_rest (b ∷ bs) ≡ success
    → (has_slash (b ∷ bs) ≡ false) × (is_dots (b ∷ bs) ≡ false) × (length (b ∷ bs) ≤ name_max)
unfolding validate_rest
validate_rest-success b bs e = ground arith

validate_rest-nil : validate_rest [] ≡ einval
unfolding validate_rest
validate_rest-nil = refl

validate_name-split :
    (b : ℕ) (rest : Name)
    → validate_name (some (b ∷ rest)) ≡ success
    → (b ≡ slash) × (validate_rest rest ≡ success)
unfolding validate_name
validate_name-split b rest e = ground arith

validate_name-join :
    (b : ℕ) (rest : Name)
    → b ≡ slash
    → validate_rest rest ≡ success
    → validate_name (some (b ∷ rest)) ≡ success
unfolding validate_name
validate_name-join b rest s e = ground arith

validate_rest_sound : (rest : Name) → validate_rest rest ≡ success → IsRest rest
validate_rest_sound [] e = absurd (omega (arith, validate_rest-nil))
validate_rest_sound (b ∷ bs) e =
    let (slashless, dotless, short) = validate_rest-success b bs e in
    record {
      nonempty = λ z. cc;
      no_slash = has_slash-NoSlash (b ∷ bs) slashless;
      no_dot = (is_dots-false (b ∷ bs) dotless).0;
      no_dots = (is_dots-false (b ∷ bs) dotless).1;
      short = short;
    }

validate_rest_complete : (rest : Name) → IsRest rest → validate_rest rest ≡ success
unfolding validate_rest
validate_rest_complete [] r = absurd (r.nonempty refl)
validate_rest_complete (b ∷ bs) r =
    ground (
      arith,
      NoSlash-has_slash (b ∷ bs) r.no_slash,
      is_dots-ne (b ∷ bs) r.no_dot r.no_dots,
      r.short,
    )

-- a portable name; `none` is a NULL pointer
abbrev pub IsPortable : Option Name → Type 0
IsPortable none = ⊥
IsPortable (some []) = ⊥
IsPortable (some (b ∷ rest)) = (b ≡ slash) × IsRest rest

validate_name-none : validate_name none ≢ success
unfolding validate_name
validate_name-none e = absurd (omega arith)

validate_name-nil : validate_name (some []) ≢ success
unfolding validate_name
validate_name-nil e = absurd (omega arith)

-- `posixipc_shm_validate_name` accepts exactly the portable names, and neither NULL nor the empty
-- name.
pub validate_name_iff : (name : Option Name) → (validate_name name ≡ success) ↔ IsPortable name
validate_name_iff none = ((λ e. absurd (validate_name-none e)), λ p. absurd p)
validate_name_iff (some []) = ((λ e. absurd (validate_name-nil e)), λ p. absurd p)
validate_name_iff (some (b ∷ rest)) = (
  λ e. let (s, e') = validate_name-split b rest e in (s, validate_rest_sound rest e'),
  λ p. validate_name-join b rest p.0 (validate_rest_complete rest p.1),
)
