-- ===== src/Inotify/RoundTrip.antt =====
-- The events that the kernel writes are read back (ext/um/um_class.c).
use mathlib.Core.List.{map}
use uringmachine.Base.{
  ℕ, zero, suc, ◌+◌, ◌-◌, ◌*◌, ◌/◌, ◌%◌, ◌^◌, ◌<◌, ◌≤◌, ◌≡◌, refl, ap, ◌∙◌, List, [], ◌∷◌, ◌++◌,
  append_assoc, arith, false, is_zero, ltb, length, drop, replicate, drop-append_ge, length-append,
  sub64, sub64_of_le, ℤ, pos, negsuc, ok,
}
use uringmachine.Inotify.{
  Event, read_word, read_header, as_int, cstr, get_events, inotify_get_events,
}

-- An event of the kernel; `pad` is the number of NULs behind the name.
pub record KernelEvent : Type 0 where
  pub wd : ℤ
  pub mask : ℕ
  pub cookie : ℕ
  pub name : List ℕ
  pub pad : ℕ

-- A word, the lowest byte first.
unfoldable pub word : ℕ → List ℕ
word n = n % 256 ∷ n / 256 % 256 ∷ n / 65536 % 256 ∷ n / 16777216 ∷ []

-- An `int` as a word.
unfoldable pub as_word : ℤ → ℕ
as_word (pos n) = n
as_word (negsuc n) = 2 ^ 32 - 1 - n

abbrev pub len_of : KernelEvent → ℕ
len_of e = length e.name + e.pad

-- What inotify(7) says of the bytes of an event.
unfoldable pub encode : KernelEvent → List ℕ
unfolding word as_word
encode e =
    word (as_word e.wd)
    ++ (word e.mask ++ (word e.cookie ++ (word (len_of e) ++ (e.name ++ replicate e.pad 0))))

unfoldable pub encode_all : List KernelEvent → List ℕ
unfolding encode
encode_all [] = []
encode_all (e ∷ es) = encode e ++ encode_all es

unfoldable pub IsInt : ℤ → Type 0
IsInt (pos n) = n < 2 ^ 31
IsInt (negsuc n) = n < 2 ^ 31

unfoldable pub HasNoNul : List ℕ → Type 0
HasNoNul [] = Unit {0}
HasNoNul (c ∷ cs) = (is_zero c ≡ false) × HasNoNul cs

-- Its words have 32 bits.
pub record IsSmall (e : KernelEvent) : Type 0 where
  pub wd : IsInt e.wd
  pub mask : e.mask < 2 ^ 32
  pub cookie : e.cookie < 2 ^ 32
  pub len : len_of e < 2 ^ 32

-- An event with a name, of a file in a directory that is watched: at least one NUL ends the name.
pub record IsNamed (e : KernelEvent) : Type 0 where
  pub small : IsSmall e
  pub no_nul : HasNoNul e.name
  pub ended : 0 < e.pad

unfoldable pub AreNamed : List KernelEvent → Type 0
AreNamed [] = Unit {0}
AreNamed (e ∷ es) = IsNamed e × AreNamed es

abbrev pub event_of : KernelEvent → Event
event_of e = record { wd = e.wd; mask = e.mask; name = e.name }

read-word : (n : ℕ) (rest : List ℕ) → read_word (word n ++ rest) ≡ ok (n, rest)
unfolding read_word word
read-word n rest =
    let e : n % 256 + 256 * (n / 256 % 256) + 65536 * (n / 65536 % 256) + 16777216 * (n / 16777216)
        ≡ n =
      omega arith in
    ap (λ x. ok (x, rest)) e

as_int-as_word : (wd : ℤ) → IsInt wd → as_int (as_word wd) ≡ wd
unfolding as_int as_word IsInt
as_int-as_word (pos n) h = ground arith
as_int-as_word (negsuc n) h =
    let e : ltb (2 ^ 32 - 1 - n) (2 ^ 31) ≡ false = ground arith in
    let b : 2 ^ 32 - 1 - (2 ^ 32 - 1 - n) ≡ n = omega arith in rw e (ap negsuc b)

cstr_ended :
    (name rest : List ℕ) (n : ℕ)
    → HasNoNul name
    → 0 < n
    → cstr (name ++ (replicate n 0 ++ rest)) ≡ ok name
unfolding cstr HasNoNul
cstr_ended [] rest zero h p = absurd (omega arith)
cstr_ended [] rest (suc n) h p = refl
cstr_ended (c ∷ cs) rest n h p = let e = cstr_ended cs rest n h.1 p in simp (h.0, e)

pub encode-append :
    (e : KernelEvent) (rest : List ℕ)
    → encode e ++ rest
      ≡ word (as_word e.wd)
        ++ (word e.mask
            ++ (word e.cookie ++ (word (len_of e) ++ (e.name ++ (replicate e.pad 0 ++ rest)))))
unfolding encode word
encode-append e rest =
    ap (λ xs. word (as_word e.wd) ++ (word e.mask ++ (word e.cookie ++ (word (len_of e) ++ xs))))
      (append_assoc e.name (replicate e.pad 0) rest)

length-replicate : (n : ℕ) → length {A = ℕ} (replicate n 0) ≡ n
length-replicate zero = refl
length-replicate (suc n) = ap suc (length-replicate n)

pub length-encode : (e : KernelEvent) → length (encode e) ≡ 16 + len_of e
unfolding encode word
length-encode e =
    let n = length-append e.name (replicate e.pad 0) in
    let k = length-replicate e.pad in omega (arith, n, k)

header-words :
    (w m c l : ℕ) (tail : List ℕ)
    → read_header (word w ++ (word m ++ (word c ++ (word l ++ tail))))
      ≡ ok (record { wd = w; mask = m; len = l }, tail)
unfolding read_header
header-words w m c l tail =
    let w₁ = read-word w (word m ++ (word c ++ (word l ++ tail))) in
    let w₂ = read-word m (word c ++ (word l ++ tail)) in
    let w₃ = read-word c (word l ++ tail) in let w₄ = read-word l tail in simp (w₁, w₂, w₃, w₄)

header-encode :
    (e : KernelEvent) (rest : List ℕ)
    → read_header (encode e ++ rest)
      ≡ ok (
        record { wd = as_word e.wd; mask = e.mask; len = len_of e },
        e.name ++ (replicate e.pad 0 ++ rest),
      )
header-encode e rest =
    ap read_header (encode-append e rest)
    ∙ header-words (as_word e.wd) e.mask e.cookie (len_of e) (e.name ++ (replicate e.pad 0 ++ rest))

drop-encode : (e : KernelEvent) (rest : List ℕ) → drop (16 + len_of e) (encode e ++ rest) ≡ rest
drop-encode e rest =
    let n = length-encode e in
    let z : 16 + len_of e - length (encode e) ≡ 0 = omega (arith, n) in
    drop-append_ge (16 + len_of e) (encode e) rest (omega (arith, n)) ∙ ap (λ k. drop k rest) z

-- An event that is read, whatever the name that is found, and the rest.
pub get_events-encode :
    (fuel : ℕ) (e : KernelEvent) (rest name : List ℕ) (left : ℕ) (others : List Event)
    → IsSmall e
    → cstr (e.name ++ (replicate e.pad 0 ++ rest)) ≡ ok name
    → get_events fuel rest left ≡ ok others
    → get_events (suc fuel) (encode e ++ rest) (16 + len_of e + left)
      ≡ ok (record { wd = e.wd; mask = e.mask; name = name } ∷ others)
unfolding get_events
get_events-encode fuel e rest name left others s c r =
    let h = header-encode e rest in
    let d = drop-encode e rest in
    let w = as_int-as_word e.wd s.wd in
    let n = 15 + len_of e + left in
    let one : 16 + len_of e + left ≡ suc n = omega arith in
    let b : sub64 (suc n) (16 + len_of e) ≡ left =
      sub64_of_le (suc n) (16 + len_of e) (omega arith) ∙ omega arith in
    let all : get_events (suc fuel) (encode e ++ rest) (suc n)
        ≡ ok (record { wd = e.wd; mask = e.mask; name = name } ∷ others) =
      simp (h, c, d, b, r, w) in
    ap (get_events (suc fuel) (encode e ++ rest)) one ∙ all

pub get_events_named :
    (fuel : ℕ) (events : List KernelEvent) (stale : List ℕ)
    → AreNamed events
    → length (encode_all events) ≤ fuel
    → get_events (suc fuel) (encode_all events ++ stale) (length (encode_all events))
      ≡ ok (map event_of events)
unfolding get_events encode_all AreNamed
get_events_named fuel [] stale h f = refl
get_events_named zero (e ∷ es) stale h f =
    let n = length-append (encode e) (encode_all es) in
    let k = length-encode e in absurd (omega (arith, n, k, f))
get_events_named (suc fuel) (e ∷ es) stale h f =
    let n = length-append (encode e) (encode_all es) in
    let k = length-encode e in
    let left = length (encode_all es) in
    let total : length (encode e ++ encode_all es) ≡ 16 + len_of e + left = omega (arith, n, k) in
    let others = get_events_named fuel es stale h.1 (omega (arith, n, k, f)) in
    ap (λ m. get_events (suc (suc fuel)) m (length (encode e ++ encode_all es)))
      (append_assoc (encode e) (encode_all es) stale)
    ∙ ap (get_events (suc (suc fuel)) (encode e ++ (encode_all es ++ stale))) total
    ∙ get_events-encode (suc fuel) e (encode_all es ++ stale) e.name left (map event_of es)
        h.0.small (cstr_ended e.name (encode_all es ++ stale) e.pad h.0.no_nul h.0.ended) others

-- The events that the kernel has written into the buffer, each with a name, in front of whatever was
-- in the buffer before, are returned in their order, with their watch, mask and name.
pub inotify_get_events-encode_all :
    (events : List KernelEvent) (stale : List ℕ)
    → AreNamed events
    → inotify_get_events (encode_all events ++ stale) (length (encode_all events))
      ≡ ok (map event_of events)
unfolding inotify_get_events
inotify_get_events-encode_all events stale h =
    let n = length (encode_all events) in
    let one : n + 1 ≡ suc n = omega arith in
    ap (λ k. get_events k (encode_all events ++ stale) n) one
    ∙ get_events_named n events stale h (omega arith)
