-- ===== src/Op/Futex.antt =====
-- `um_futex_wait` (ext/um/um_sync.c): a blocking operation that handles its completion itself.
use uringmachine.Base.{
  ℕ, ◌-◌, ◌^◌, ◌≡◌, ◌⊎◌, inl, inr, refl, ap, ◌∙◌, Bool, true, false, not, ◌==◌, if◌then◌else◌,
  Bool-cases, ℤ, pos, negsuc, is_neg, Outcome, ok, List, ◌>>=◌,
}
use uringmachine.Op.State.{Op, Core, modify}
use uringmachine.Op.{um_op_release}
use uringmachine.Op.Blocking.{End, returned, raised_error, raised_value}
use uringmachine.Op.Await.{Switch, um_cancel_op_and_await_cqe}
use uringmachine.Op.Steps.{Single, Freed, here, release_last-Freed}
use uringmachine.Op.Canceled.{release_none}

-- -EAGAIN: the futex had another value.
abbrev again : ℤ → Bool
again (pos n) = false
again (negsuc n) = n == 10

abbrev pub futex_end : (is_exception : Bool) → End
futex_end is_exception = if is_exception then raised_value else returned (pos 0)

-- Behind `um_yield`. An operation that is not done is canceled, and its completion waited for while the
-- machine switches.
pub um_futex_wait_finish : List Switch → (is_exception : Bool) → Core → ℕ → Outcome (End × Core)
um_futex_wait_finish switches is_exception m a =
    let op = m.ops a in
    let m₁ = um_op_release m a in
    if not op.cqe_done
    then (um_cancel_op_and_await_cqe switches m a >>= λ m₂.
        ok (futex_end is_exception, um_op_release m₂ a))
    else (if again op.res
        then ok (futex_end is_exception, m₁)
        else (if is_neg op.res
            then ok (raised_error, m₁)
            else ok (futex_end is_exception, um_op_release m₁ a)))

-- How a wait on a futex ends that is completed.
pub record Ends (switches : List Switch) (m : Core) (a : ℕ) (is_exception : Bool) : Type 0 where
  pub end : End
  pub last : Core
  pub run : um_futex_wait_finish switches is_exception m a ≡ ok (end, last)
  pub freed : Freed m last a
  pub ref_count :
      ((is_neg (m.ops a).res ≡ true) × ((last.ops a).ref_count ≡ 0))
      ⊎ ((is_neg (m.ops a).res ≡ false) × ((last.ops a).ref_count ≡ 2 ^ 32 - 1))

futex_failed :
    (switches : List Switch) (is_exception : Bool) (m : Core) (a : ℕ)
    → (m.ops a).cqe_done ≡ true
    → is_neg (m.ops a).res ≡ true
    → um_futex_wait_finish switches is_exception m a
      ≡ ok (if again (m.ops a).res then futex_end is_exception else raised_error, um_op_release m a)
unfolding um_futex_wait_finish
futex_failed switches is_exception m a d n = elim (Bool-cases (again (m.ops a).res)) [
  | inl e ↦ simp (d, e)
  | inr e ↦ simp (d, e, n)
]

not_again : (res : ℤ) → is_neg res ≡ false → again res ≡ false
not_again (pos n) h = refl
not_again (negsuc n) h = cc

futex_woken :
    (switches : List Switch) (is_exception : Bool) (m : Core) (a : ℕ)
    → (m.ops a).cqe_done ≡ true
    → is_neg (m.ops a).res ≡ false
    → um_futex_wait_finish switches is_exception m a
      ≡ ok (futex_end is_exception, um_op_release (um_op_release m a) a)
unfolding um_futex_wait_finish
futex_woken switches is_exception m a d n = simp (d, not_again (m.ops a).res n, n)

over_released : Op → Op
over_released op = record op { ref_count = 2 ^ 32 - 1 }

-- A wait on a futex that is completed, and whose operation only the fiber still refers to, ends, and
-- frees the operation once. Where the result is no error it is released twice: the reference count of
-- the freed operation is then 2^32 - 1.
pub um_futex_wait_finish-Ends :
    (switches : List Switch) (is_exception : Bool) (m : Core) (a : ℕ)
    → Single (m.ops a)
    → (m.ops a).cqe_done ≡ true
    → (m.ops a).ref_count ≡ 1
    → Ends switches m a is_exception
unfolding over_released
um_futex_wait_finish-Ends switches is_exception m a s d e =
    let f = release_last-Freed m a e s in
    let m₁ = um_op_release m a in
    elim (Bool-cases (is_neg (m.ops a).res)) [
      | inl n ↦ record {
        end = if again (m.ops a).res then futex_end is_exception else raised_error;
        last = m₁;
        run = futex_failed switches is_exception m a d n;
        freed = f.0;
        ref_count = inl (n, f.1);
      }
      | inr n ↦
          let h = here m₁ a over_released in
          record {
            end = futex_end is_exception;
            last = modify m₁ a over_released;
            run =
                futex_woken switches is_exception m a d n
                ∙ ap (λ x. ok (futex_end is_exception, x)) (release_none m₁ a f.1);
            freed = record {
              head = f.0.head;
              next = ap (λ o. o.next) h ∙ f.0.next;
              ops_free = f.0.ops_free;
            };
            ref_count = inr (n, ap (λ o. o.ref_count) h);
          }
    ]
