-- ===== src/Inotify/Tests.antt =====
-- Events in a buffer.
use uringmachine.Base.{◌≡◌, refl, arith, [], ◌∷◌, ◌++◌, ◌+◌, replicate, length, ℤ, ok}
use uringmachine.Inotify.{inotify_get_events}
use uringmachine.Inotify.RoundTrip.{
  KernelEvent, encode, encode_all, len_of, IsNamed, AreNamed, event_of,
  inotify_get_events-encode_all, IsInt, HasNoNul,
}
use uringmachine.Inotify.Unnamed.{IsUnnamed, inotify_get_events-reads_next}

-- A file "ab" is created in the directory of watch 5.
abbrev created : KernelEvent
created = record { wd = ℤ.pos 5; mask = 256; cookie = 0; name = 97 ∷ 98 ∷ []; pad = 14 }

created-IsNamed : IsNamed created
unfolding IsInt HasNoNul
created-IsNamed = record {
  small = record { wd = omega arith; mask = omega arith; cookie = omega arith; len = omega arith };
  no_nul = (refl, (refl, tt));
  ended = omega arith;
}

-- The file of watch 7 is written.
abbrev written : KernelEvent
written = record { wd = ℤ.pos 7; mask = 2; cookie = 0; name = []; pad = 0 }

written-IsUnnamed : IsUnnamed written
unfolding IsInt
written-IsUnnamed = record {
  small = record { wd = omega arith; mask = omega arith; cookie = omega arith; len = omega arith };
  name = refl;
  pad = refl;
}

inotify_get_events-encode_all_example :
    inotify_get_events
      (encode_all (created ∷ created ∷ []) ++ replicate 64 0)
      (length (encode_all (created ∷ created ∷ [])))
    ≡ ok (event_of created ∷ event_of created ∷ [])
unfolding AreNamed
inotify_get_events-encode_all_example =
    inotify_get_events-encode_all (created ∷ created ∷ []) (replicate 64 0)
      (created-IsNamed, (created-IsNamed, tt))

inotify_get_events-reads_next_example :
    inotify_get_events
      (encode written ++ (encode created ++ replicate 64 0))
      (16 + len_of written + length (encode created))
    ≡ ok (record { wd = ℤ.pos 7; mask = 2; name = 5 ∷ [] } ∷ event_of created ∷ [])
inotify_get_events-reads_next_example =
    inotify_get_events-reads_next written created (replicate 64 0) 5 written-IsUnnamed
      created-IsNamed refl (omega arith) (omega arith)
