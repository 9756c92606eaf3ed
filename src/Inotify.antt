-- ===== src/Inotify.antt =====
-- `inotify_get_events` of ext/um/um_class.c: the events that the kernel writes into a buffer.
pub mod RoundTrip
pub mod Unnamed
pub mod Tests
use uringmachine.Base.{
  ℕ, zero, suc, ◌+◌, ◌-◌, ◌*◌, ◌^◌, List, [], ◌∷◌, Option, none, some, ltb, is_zero, if◌then◌else◌,
  drop, sub64, ℤ, pos, negsuc, Outcome, ok, fault, out_of_fuel, ◌>>=◌,
}

-- The hash of an event.
pub record Event : Type 0 where
  pub wd : ℤ
  pub mask : ℕ
  pub name : List ℕ

-- What `struct inotify_event` begins with: four words of 32 bits, of which the third is not read.
pub record EventHeader : Type 0 where
  pub wd : ℕ
  pub mask : ℕ
  pub len : ℕ

-- A word of 32 bits in memory, the lowest byte first, and what is behind it.
unfoldable pub read_word : List ℕ → Outcome (ℕ × List ℕ)
read_word (a ∷ b ∷ c ∷ d ∷ memory) = ok (a + 256 * b + 65536 * c + 16777216 * d, memory)
read_word memory = fault

-- The header, and the memory that `name` points to.
unfoldable pub read_header : List ℕ → Outcome (EventHeader × List ℕ)
unfolding read_word
read_header memory = do
  (wd, memory₁) ← read_word memory
  (mask, memory₂) ← read_word memory₁
  (cookie, memory₃) ← read_word memory₂
  (len, memory₄) ← read_word memory₃
  ok (record { wd = wd; mask = mask; len = len }, memory₄)

-- A word as an `int`.
unfoldable pub as_int : ℕ → ℤ
as_int word = if ltb word (2 ^ 31) then pos word else negsuc (2 ^ 32 - 1 - word)

-- `rb_str_new_cstr`: the bytes up to the first NUL, however far away it is.
unfoldable pub cstr : List ℕ → Outcome (List ℕ)
cstr [] = fault
cstr (c ∷ memory) =
    let rest = cstr memory in if is_zero c then ok [] else (rest >>= λ cs. ok (c ∷ cs))

-- `len` bytes are left to be read, at the start of the memory.
unfoldable pub get_events : (fuel : ℕ) → List ℕ → (len : ℕ) → Outcome (List Event)
unfolding read_header as_int cstr
get_events zero memory len = out_of_fuel
get_events (suc fuel) memory zero = ok []
get_events (suc fuel) memory (suc n) = do
  (header, name_memory) ← read_header memory
  let evt_len = 16 + header.len
  name ← cstr name_memory
  events ← get_events fuel (drop evt_len memory) (sub64 (suc n) evt_len)
  ok (record { wd = as_int header.wd; mask = header.mask; name = name } ∷ events)

-- An event takes more than one byte.
unfoldable pub inotify_get_events : List ℕ → (len : ℕ) → Outcome (List Event)
unfolding get_events
inotify_get_events memory len = get_events (len + 1) memory len
