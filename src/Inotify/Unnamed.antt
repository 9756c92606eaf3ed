-- ===== src/Inotify/Unnamed.antt =====
-- Events without a name (ext/um/um_class.c): those of a file that is watched itself.
use uringmachine.Base.{
  ℕ, suc, ◌+◌, ◌%◌, ◌/◌, ◌<◌, ◌≡◌, sym, ap, ◌∙◌, List, [], ◌∷◌, ◌++◌, arith, false, is_zero, length,
  append-nil, replicate, ℤ, pos, ok,
}
use uringmachine.Inotify.{cstr, get_events, inotify_get_events}
use uringmachine.Inotify.RoundTrip.{
  KernelEvent, word, as_word, encode, encode_all, len_of, IsSmall, IsNamed, AreNamed, event_of,
  length-encode, get_events-encode, get_events_named, encode-append,
}

-- The header is all there is of it.
pub record IsUnnamed (e : KernelEvent) : Type 0 where
  pub small : IsSmall e
  pub name : e.name ≡ []
  pub pad : e.pad ≡ 0

cstr_one :
    (a b : ℕ) (memory : List ℕ) → is_zero a ≡ false → b ≡ 0 → cstr (a ∷ b ∷ memory) ≡ ok (a ∷ [])
unfolding cstr
cstr_one a b memory h e = simp (h, e)

cstr-word : (w : ℕ) (memory : List ℕ) → 0 < w → w < 256 → cstr (word w ++ memory) ≡ ok (w ∷ [])
unfolding word
cstr-word w memory p h =
    let low : w % 256 ≡ w = omega arith in
    let high : w / 256 % 256 ≡ 0 = omega arith in
    cstr_one (w % 256) (w / 256 % 256) (w / 65536 % 256 ∷ w / 16777216 ∷ memory)
      (ground (arith, low)) high
    ∙ ap (λ x. ok (x ∷ [])) low

-- What is found behind the header of the first event.
cstr-next :
    (e next : KernelEvent) (stale : List ℕ) (w : ℕ)
    → IsUnnamed e
    → next.wd ≡ pos w
    → 0 < w
    → w < 256
    → cstr (e.name ++ (replicate e.pad 0 ++ (encode next ++ stale))) ≡ ok (w ∷ [])
unfolding as_word
cstr-next e next stale w u d p h =
    let rest = encode next ++ stale in
    let behind : List ℕ =
      word next.mask
      ++ (word next.cookie
          ++ (word (len_of next) ++ (next.name ++ (replicate next.pad 0 ++ stale)))) in
    ap (λ (n : List ℕ). cstr (n ++ (replicate e.pad 0 ++ rest))) u.name
    ∙ ap (λ k. cstr (replicate k 0 ++ rest)) u.pad
    ∙ ap cstr (encode-append next stale)
    ∙ ap (λ (i : ℤ). cstr (word (as_word i) ++ behind)) d
    ∙ cstr-word w behind p h

-- An event without a name, and behind it one of a watch `w` below 256: the name that is returned for
-- the first is read out of the second, and is the byte `w`.
pub inotify_get_events-reads_next :
    (e next : KernelEvent) (stale : List ℕ) (w : ℕ)
    → IsUnnamed e
    → IsNamed next
    → next.wd ≡ pos w
    → 0 < w
    → w < 256
    → inotify_get_events (encode e ++ (encode next ++ stale)) (16 + len_of e + length (encode next))
      ≡ ok (record { wd = e.wd; mask = e.mask; name = w ∷ [] } ∷ event_of next ∷ [])
unfolding inotify_get_events encode_all AreNamed
inotify_get_events-reads_next e next stale w u n d p h =
    let left = length (encode next) in
    let nil = append-nil (encode next) in
    let same : length (encode next ++ []) ≡ left = ap (λ (m : List ℕ). length m) nil in
    let fuel = 15 + len_of e + left in
    let enough : 16 + len_of e + left + 1 ≡ suc (suc fuel) = omega arith in
    let k = length-encode next in
    let second : get_events (suc fuel) (encode next ++ stale) left ≡ ok (event_of next ∷ []) =
      sym (ap (λ (m : List ℕ). get_events (suc fuel) (m ++ stale) (length m)) nil)
      ∙ get_events_named fuel (next ∷ []) stale (n, tt) (omega (arith, same)) in
    ap (λ x. get_events x (encode e ++ (encode next ++ stale)) (16 + len_of e + left)) enough
    ∙ get_events-encode (suc fuel) e (encode next ++ stale) (w ∷ []) left (event_of next ∷ [])
        u.small (cstr-next e next stale w u d p h) second
