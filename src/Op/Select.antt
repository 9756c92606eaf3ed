-- ===== src/Op/Select.antt =====
-- `um_select` (ext/um/um.c): a poll operation for each file descriptor; the fiber is resumed when the
-- first of them is done.
use uringmachine.Base.{
  ℕ, Bool, true, false, ◌&&◌, List, [], ◌∷◌, ◌++◌, is_zero, if◌then◌else◌, ℤ, pos, negsuc, is_neg,
  Outcome, ok, ◌>>=◌,
}
use uringmachine.Op.State.{OpKind, no_flags, op_sqe, Core, modify}
use uringmachine.Op.{um_op_acquire, um_op_release, um_get_sqe, um_prep_op}
use uringmachine.Op.Schedule.{set_flags, um_cancel_op_and_discard_cqe}
use uringmachine.Op.Blocking.{not_done, error, completed, um_verify_op_completion}

-- The flags OP_F_SELECT_…, of which each operation has one.
pub data Event : Type 0 where
  pollin pollout pollpri : Event

-- An operation of the array, with its flag.
pub record Poll : Type 0 where
  pub event : Event
  pub op : ℕ

-- The three arrays that are returned, newest last.
pub record Selection : Type 0 where
  pub rfds : List ℕ
  pub wfds : List ℕ
  pub efds : List ℕ

abbrev pub nothing : Selection
nothing = record { rfds = []; wfds = []; efds = [] }

-- One operation for each file descriptor.
unfoldable pub prepare_select_poll_ops :
    (fiber : ℕ) → Event → (fds : List ℕ) → Core → Outcome (List Poll × Core)
prepare_select_poll_ops fiber event [] m = ok ([], m)
prepare_select_poll_ops fiber event (fd ∷ fds) m = do
  let (a, m₁) = um_op_acquire m
  m₂ ← um_get_sqe (um_prep_op fiber m₁ a OpKind.op_poll 2 no_flags) a (op_sqe a)
  (polls, m₃) ←
      prepare_select_poll_ops fiber event fds (modify m₂ a (λ op. record op { value = fd }))
  ok (record { event = event; op = a } ∷ polls, m₃)

unfoldable pub push_fd : Event → (fd : ℕ) → Selection → Selection
push_fd pollin fd s = record s { rfds = s.rfds ++ fd ∷ [] }
push_fd pollout fd s = record s { wfds = s.wfds ++ fd ∷ [] }
push_fd pollpri fd s = record s { efds = s.efds ++ fd ∷ [] }

abbrev pub is_no_error : ℤ → Bool
is_no_error (pos n) = is_zero n
is_no_error (negsuc n) = false

-- The state of the loop over the operations.
pub record Loop : Type 0 where
  pub error_code : ℤ
  pub selection : Selection
  pub core : Core

-- An operation that is done, and still on the run queue, is to be skipped there.
unfoldable pub skip_scheduled : Core → ℕ → Core
skip_scheduled m a =
    if (m.ops a).scheduled then set_flags m a (λ f. record f { skip = true }) else m

-- An operation that is done, and one that is not.
unfoldable pub take_done : Poll → Loop → Loop
unfolding push_fd skip_scheduled
take_done p l =
    let op = l.core.ops p.op in
    let first_error = is_neg op.res && is_no_error l.error_code in
    record {
      error_code = if first_error then op.res else l.error_code;
      selection = if first_error then l.selection else push_fd p.event op.value l.selection;
      core = skip_scheduled l.core p.op;
    }

unfoldable pub select_op : Poll → Loop → Outcome Loop
unfolding take_done
select_op p l =
    if (l.core.ops p.op).cqe_done
    then ok (take_done p l)
    else (um_cancel_op_and_discard_cqe l.core p.op >>= λ m. ok (record l { core = m }))

unfoldable pub select_ops : List Poll → Loop → Outcome Loop
unfolding select_op
select_ops [] l = ok l
select_ops (p ∷ polls) l = select_op p l >>= select_ops polls

unfoldable pub release_ops : List Poll → Core → Core
release_ops [] m = m
release_ops (p ∷ polls) m = release_ops polls (um_op_release m p.op)

pub data SelectEnd : Type 0 where
  selected : Selection → SelectEnd
  raised_value : SelectEnd
  raised_error : (error_code : ℤ) → SelectEnd

-- Before `um_yield`, with more or less than one file descriptor. With none at all the call returns
-- three empty arrays at once.
unfoldable pub um_select_start :
    (fiber : ℕ) (rfds wfds efds : List ℕ) → Core → Outcome (List Poll × Core)
unfolding prepare_select_poll_ops
um_select_start fiber rfds wfds efds m = do
  (ins, m₁) ← prepare_select_poll_ops fiber pollin rfds m
  (outs, m₂) ← prepare_select_poll_ops fiber pollout wfds m₁
  (pris, m₃) ← prepare_select_poll_ops fiber pollpri efds m₂
  ok (ins ++ (outs ++ pris), m₃)

-- Behind `um_yield`.
unfoldable pub um_select_finish :
    (is_exception : Bool) → List Poll → Core → Outcome (SelectEnd × Core)
unfolding select_ops release_ops
um_select_finish is_exception polls m = do
  l ← select_ops polls (record { error_code = pos 0; selection = nothing; core = m })
  ok (
    if is_exception
        then raised_value
        else if is_no_error l.error_code
        then selected l.selection
        else raised_error l.error_code,
    release_ops polls l.core,
  )

-- One file descriptor: the value that the fiber is resumed with is returned, whether the operation is
-- done or not.
pub um_select_single_finish :
    (value : ℕ) (is_exception : Bool) → Poll → Core → Outcome (SelectEnd × Core)
unfolding push_fd
um_select_single_finish value is_exception p m = do
  (v, m₁) ← um_verify_op_completion m p.op
  let end = if is_exception then raised_value else selected (push_fd p.event value nothing)
  elim v [
    | completed res ↦ ok (end, um_op_release m₁ p.op)
    | not_done ↦ ok (end, um_op_release m₁ p.op)
    | error ↦ ok (raised_error (m.ops p.op).res, m₁)
  ]
