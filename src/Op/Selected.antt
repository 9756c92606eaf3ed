-- ===== src/Op/Selected.antt =====
-- What `um_select` returns (ext/um/um.c).
use uringmachine.Base.{
  ℕ, ◌-◌, ◌≤◌, ◌≡◌, refl, ap, ◌∙◌, inl, inr, Bool, true, false, ◌&&◌, List, [], ◌∷◌, ◌++◌, arith,
  Bool-cases, if◌then◌else◌, length, append_assoc, append-nil, ℤ, pos, negsuc, is_neg, ok,
}
use uringmachine.Op.State.{Sqe, cancel_sqe, Core}
use uringmachine.Op.{um_op_release, um_op_free}
use uringmachine.Op.Select.{
  Event, pollin, pollout, pollpri, Poll, Selection, nothing, push_fd, is_no_error, Loop, select_ops,
  release_ops, selected, raised_error, um_select_finish,
}
use uringmachine.Op.SelectSteps.{Agrees, new_code, new_selection, new_sqes, select_op-Stepped}

-- What all operations do, as they are in `m`.
codes : Core → List Poll → ℤ → ℤ
codes m [] c = c
codes m (p ∷ polls) c = codes m polls (new_code m p c)

selections : Core → List Poll → ℤ → Selection → Selection
selections m [] c s = s
selections m (p ∷ polls) c s = selections m polls (new_code m p c) (new_selection m p c s)

unfoldable pub cancels : Core → List Poll → List Sqe → List Sqe
cancels m [] sqes = sqes
cancels m (p ∷ polls) sqes =
    cancels m polls (if (m.ops p.op).cqe_done then sqes else cancel_sqe p.op ∷ sqes)

new_code-Agrees : (m m' : Core) (p : Poll) (c : ℤ) → Agrees m m' → new_code m' p c ≡ new_code m p c
unfolding new_code
new_code-Agrees m m' p c h = simp (h.done p.op, h.res p.op)

new_selection-Agrees :
    (m m' : Core) (p : Poll) (c : ℤ) (s : Selection)
    → Agrees m m'
    → new_selection m' p c s ≡ new_selection m p c s
unfolding new_selection
new_selection-Agrees m m' p c s h = simp (h.done p.op, h.res p.op, h.value p.op)

codes-Agrees :
    (m m' : Core) (polls : List Poll) (c : ℤ) → Agrees m m' → codes m' polls c ≡ codes m polls c
unfolding codes
codes-Agrees m m' [] c h = refl
codes-Agrees m m' (p ∷ polls) c h =
    ap (codes m' polls) (new_code-Agrees m m' p c h) ∙ codes-Agrees m m' polls (new_code m p c) h

selections-Agrees :
    (m m' : Core) (polls : List Poll) (c : ℤ) (s : Selection)
    → Agrees m m'
    → selections m' polls c s ≡ selections m polls c s
unfolding selections
selections-Agrees m m' [] c s h = refl
selections-Agrees m m' (p ∷ polls) c s h =
    (λ i. selections m' polls (new_code-Agrees m m' p c h i) (new_selection-Agrees m m' p c s h i))
    ∙ selections-Agrees m m' polls (new_code m p c) (new_selection m p c s) h

cancels-Agrees :
    (m m' : Core) (polls : List Poll) (sqes : List Sqe)
    → Agrees m m'
    → cancels m' polls sqes ≡ cancels m polls sqes
unfolding cancels
cancels-Agrees m m' [] sqes h = refl
cancels-Agrees m m' (p ∷ polls) sqes h =
    ap (λ d. cancels m' polls (if d then sqes else cancel_sqe p.op ∷ sqes)) (h.done p.op)
    ∙ cancels-Agrees m m' polls (if (m.ops p.op).cqe_done then sqes else cancel_sqe p.op ∷ sqes) h

record Looped (polls : List Poll) (l l' : Loop) : Type 0 where
  code : l'.error_code ≡ codes l.core polls l.error_code
  selection : l'.selection ≡ selections l.core polls l.error_code l.selection
  sqes : l'.core.sqes ≡ cancels l.core polls l.core.sqes

select_ops-Looped :
    (polls : List Poll) (l : Loop)
    → length polls ≤ l.core.room
    → (l' : Loop) × (select_ops polls l ≡ ok l') × Looped polls l l'
unfolding select_ops codes selections cancels new_sqes
select_ops-Looped [] l h = (l, refl, record { code = refl; selection = refl; sqes = refl })
select_ops-Looped (p ∷ polls) l h =
    let (l₁, r₁, s) = select_op-Stepped p l (l.core.room - 1) (omega arith) in
    let (l₂, r₂, t) = select_ops-Looped polls l₁ (omega (arith, s.room)) in
    (
      l₂,
      simp (r₁, r₂),
      record {
        code =
            t.code
            ∙ codes-Agrees l.core l₁.core polls l₁.error_code s.agrees
            ∙ ap (codes l.core polls) s.code;
        selection =
            t.selection
            ∙ selections-Agrees l.core l₁.core polls l₁.error_code l₁.selection s.agrees
            ∙ (λ i. selections l.core polls (s.code i) (s.selection i));
        sqes =
            t.sqes
            ∙ cancels-Agrees l.core l₁.core polls l₁.core.sqes s.agrees
            ∙ ap (cancels l.core polls) s.sqes;
      },
    )

is_event : Event → Event → Bool
is_event pollin pollin = true
is_event pollout pollout = true
is_event pollpri pollpri = true
is_event e f = false

-- The file descriptors whose operation waits for the event and is done, in the order of the operations.
unfoldable pub ready_fds : Core → Event → List Poll → List ℕ
unfolding is_event
ready_fds m e [] = []
ready_fds m e (p ∷ polls) =
    let rest = ready_fds m e polls in
    if (m.ops p.op).cqe_done && is_event e p.event then (m.ops p.op).value ∷ rest else rest

-- No operation that is done has failed.
unfoldable pub Succeed : Core → List Poll → Type 0
Succeed m [] = Unit {0}
Succeed m (p ∷ polls) =
    (((m.ops p.op).cqe_done && is_neg (m.ops p.op).res) ≡ false) × Succeed m polls

codes-Succeed : (m : Core) (polls : List Poll) (c : ℤ) → Succeed m polls → codes m polls c ≡ c
unfolding codes new_code Succeed
codes-Succeed m [] c h = refl
codes-Succeed m (p ∷ polls) c h =
    let same : new_code m p c ≡ c = ground (arith, h.0) in
    ap (codes m polls) same ∙ codes-Succeed m polls c h.1

codes-failed : (m : Core) (polls : List Poll) (c : ℤ) → is_no_error c ≡ false → codes m polls c ≡ c
unfolding codes new_code
codes-failed m [] c h = refl
codes-failed m (p ∷ polls) c h =
    let same : new_code m p c ≡ c = ground (arith, h) in
    ap (codes m polls) same ∙ codes-failed m polls c h

neg_error : (c : ℤ) → is_neg c ≡ true → is_no_error c ≡ false
neg_error (pos n) h = ground arith
neg_error (negsuc n) h = refl

codes-first :
    (m : Core) (before : List Poll) (p : Poll) (after : List Poll)
    → Succeed m before
    → (m.ops p.op).cqe_done ≡ true
    → is_neg (m.ops p.op).res ≡ true
    → codes m (before ++ p ∷ after) (pos 0) ≡ (m.ops p.op).res
unfolding codes new_code Succeed
codes-first m [] p after h d n =
    let here : new_code m p (pos 0) ≡ (m.ops p.op).res = simp (d, n) in
    ap (codes m after) here ∙ codes-failed m after (m.ops p.op).res (neg_error (m.ops p.op).res n)
codes-first m (q ∷ before) p after h d n =
    let same : new_code m q (pos 0) ≡ pos 0 = ground (arith, h.0) in
    ap (codes m (before ++ p ∷ after)) same ∙ codes-first m before p after h.1 d n

joined : Selection → Core → List Poll → Selection
joined s m polls = record {
  rfds = s.rfds ++ ready_fds m pollin polls;
  wfds = s.wfds ++ ready_fds m pollout polls;
  efds = s.efds ++ ready_fds m pollpri polls;
}

joined-push :
    (m : Core) (e : Event) (a : ℕ) (polls : List Poll) (s : Selection)
    → (m.ops a).cqe_done ≡ true
    → joined (push_fd e (m.ops a).value s) m polls
      ≡ joined s m (record { event = e; op = a } ∷ polls)
unfolding joined ready_fds push_fd is_event
joined-push m pollin a polls s d =
    simp (d, append_assoc s.rfds ((m.ops a).value ∷ []) (ready_fds m pollin polls))
joined-push m pollout a polls s d =
    simp (d, append_assoc s.wfds ((m.ops a).value ∷ []) (ready_fds m pollout polls))
joined-push m pollpri a polls s d =
    simp (d, append_assoc s.efds ((m.ops a).value ∷ []) (ready_fds m pollpri polls))

selections-joined :
    (m : Core) (polls : List Poll) (c : ℤ) (s : Selection)
    → Succeed m polls
    → selections m polls c s ≡ joined s m polls
unfolding selections Succeed joined ready_fds new_code new_selection
selections-joined m [] c s h = simp (append-nil s.rfds, append-nil s.wfds, append-nil s.efds)
selections-joined m (p ∷ polls) c s h = elim (Bool-cases (m.ops p.op).cqe_done) [
  | inl d ↦
      let pushed : new_selection m p c s ≡ push_fd p.event (m.ops p.op).value s =
        ground (arith, h.0) in
      selections-joined m polls (new_code m p c) (new_selection m p c s) h.1
      ∙ ap (λ t. joined t m polls) pushed
      ∙ joined-push m p.event p.op polls s d
  | inr d ↦
      let same : new_selection m p c s ≡ s = ground arith in
      selections-joined m polls (new_code m p c) (new_selection m p c s) h.1
      ∙ ap (λ t. joined t m polls) same
      ∙ simp d
]

release_ops-sqes : (polls : List Poll) (m : Core) → (release_ops polls m).sqes ≡ m.sqes
unfolding release_ops um_op_release um_op_free
release_ops-sqes [] m = refl
release_ops-sqes (p ∷ polls) m =
    let one : (um_op_release m p.op).sqes ≡ m.sqes = ground arith in
    release_ops-sqes polls (um_op_release m p.op) ∙ one

-- With room in the submission queue for every operation, and none that is done failed: the file
-- descriptors whose operation is done are returned, those of each array in their order, and a
-- cancellation is submitted for each operation that is not done.
pub um_select_finish-ready :
    (polls : List Poll) (m : Core)
    → length polls ≤ m.room
    → Succeed m polls
    → (last : Core) × (um_select_finish false polls m
        ≡ ok (
          selected (record {
            rfds = ready_fds m pollin polls;
            wfds = ready_fds m pollout polls;
            efds = ready_fds m pollpri polls;
          }),
          last,
        ))
      × (last.sqes ≡ cancels m polls m.sqes)
unfolding um_select_finish joined
um_select_finish-ready polls m h s =
    let (l, r, w) =
      select_ops-Looped polls (record { error_code = pos 0; selection = nothing; core = m }) h in
    let code = w.code ∙ codes-Succeed m polls (pos 0) s in
    let arrays = w.selection ∙ selections-joined m polls (pos 0) nothing s in
    (release_ops polls l.core, simp (r, code, arrays), release_ops-sqes polls l.core ∙ w.sqes)

-- With room in the submission queue for every operation, the error of the first that failed is raised,
-- though others are done, and a cancellation is submitted for each operation that is not done.
pub um_select_finish-first_error :
    (before : List Poll) (p : Poll) (after : List Poll) (m : Core)
    → length (before ++ p ∷ after) ≤ m.room
    → Succeed m before
    → (m.ops p.op).cqe_done ≡ true
    → is_neg (m.ops p.op).res ≡ true
    → (last : Core) × (um_select_finish false (before ++ p ∷ after) m
        ≡ ok (raised_error (m.ops p.op).res, last))
      × (last.sqes ≡ cancels m (before ++ p ∷ after) m.sqes)
unfolding um_select_finish
um_select_finish-first_error before p after m h s d n =
    let polls = before ++ p ∷ after in
    let (l, r, w) =
      select_ops-Looped polls (record { error_code = pos 0; selection = nothing; core = m }) h in
    let code = w.code ∙ codes-first m before p after s d n in
    (
      release_ops polls l.core,
      simp (r, code, neg_error (m.ops p.op).res n),
      release_ops-sqes polls l.core ∙ w.sqes,
    )
