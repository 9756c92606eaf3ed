-- ===== src/Op/SelectSteps.antt =====
-- What the loop of `um_select` does with each operation (ext/um/um.c).
use uringmachine.Base.{
  ℕ, suc, ◌+◌, ◌-◌, ◌≤◌, ◌≡◌, refl, sym, subst, ap, ◌∙◌, inl, inr, true, not, ◌&&◌, List, ◌∷◌,
  arith, ◌==◌, ==_iff, Bool-cases, if◌then◌else◌, ℤ, is_neg, ok,
}
use uringmachine.Op.State.{Flags, Sqe, cancel_sqe, Core}
use uringmachine.Op.{um_get_sqe}
use uringmachine.Op.Schedule.{set_flags, um_cancel_op, um_cancel_op_and_discard_cqe}
use uringmachine.Op.Select.{
  Poll, Selection, push_fd, is_no_error, Loop, skip_scheduled, take_done, select_op,
}

-- The operations have the same results.
pub record Agrees (m m' : Core) : Type 0 where
  pub done : (a : ℕ) → (m'.ops a).cqe_done ≡ (m.ops a).cqe_done
  pub res : (a : ℕ) → (m'.ops a).res ≡ (m.ops a).res
  pub value : (a : ℕ) → (m'.ops a).value ≡ (m.ops a).value

Agrees-trans : {a b c : Core} → Agrees a b → Agrees b c → Agrees a c
Agrees-trans h k = record {
  done = λ x. k.done x ∙ h.done x;
  res = λ x. k.res x ∙ h.res x;
  value = λ x. k.value x ∙ h.value x;
}

set_flags-Agrees :
    (m : Core) (a : ℕ) (f : Flags → Flags)
    → ((g : Flags) → (f g).cqe_done ≡ g.cqe_done)
    → Agrees m (set_flags m a f)
set_flags-Agrees m a f h = record {
  done = λ x. elim (Bool-cases (a == x)) [
    | inl e ↦
        let y = (==_iff a x).0 e in rw e (h ((m.ops a).flags) ∙ ap (λ z. (m.ops z).cqe_done) y)
    | inr e ↦ rw e refl
  ];
  res = λ x. elim (Bool-cases (a == x)) [
    | inl e ↦ let y = (==_iff a x).0 e in rw e (ap (λ z. (m.ops z).res) y)
    | inr e ↦ rw e refl
  ];
  value = λ x. elim (Bool-cases (a == x)) [
    | inl e ↦ let y = (==_iff a x).0 e in rw e (ap (λ z. (m.ops z).value) y)
    | inr e ↦ rw e refl
  ];
}

-- What one operation, as it is in `m`, does to the error code, the arrays and the submission queue.
unfoldable pub new_code : Core → Poll → ℤ → ℤ
new_code m p c =
    let op = m.ops p.op in if op.cqe_done && (is_neg op.res && is_no_error c) then op.res else c

unfoldable pub new_selection : Core → Poll → ℤ → Selection → Selection
new_selection m p c s =
    let op = m.ops p.op in
    if op.cqe_done && not (is_neg op.res && is_no_error c) then push_fd p.event op.value s else s

unfoldable pub new_sqes : Core → Poll → List Sqe → List Sqe
new_sqes m p sqes = if (m.ops p.op).cqe_done then sqes else cancel_sqe p.op ∷ sqes

pub record Stepped (p : Poll) (l l' : Loop) : Type 0 where
  pub code : l'.error_code ≡ new_code l.core p l.error_code
  pub selection : l'.selection ≡ new_selection l.core p l.error_code l.selection
  pub sqes : l'.core.sqes ≡ new_sqes l.core p l.core.sqes
  pub room : l.core.room ≤ suc l'.core.room
  pub agrees : Agrees l.core l'.core

skip_scheduled-Agrees : (m : Core) (a : ℕ) → Agrees m (skip_scheduled m a)
unfolding skip_scheduled
skip_scheduled-Agrees m a = elim (Bool-cases (m.ops a).scheduled) [
  | inl e ↦
      let left : skip_scheduled m a ≡ set_flags m a (λ f. record f { skip = true }) =
        simp (skip_scheduled, e) in
      subst (Agrees m) (sym left) (set_flags-Agrees m a (λ f. record f { skip = true }) (λ f. refl))
  | inr e ↦ rw e (record { done = λ x. refl; res = λ x. refl; value = λ x. refl })
]

skip_scheduled-fields :
    (m : Core) (a : ℕ) → ((skip_scheduled m a).sqes ≡ m.sqes) × ((skip_scheduled m a).room ≡ m.room)
unfolding skip_scheduled
skip_scheduled-fields m a = ground arith

take_done-Stepped :
    (p : Poll) (l : Loop) → (l.core.ops p.op).cqe_done ≡ true → Stepped p l (take_done p l)
unfolding take_done new_code new_selection new_sqes
take_done-Stepped p l d =
    let f = skip_scheduled-fields l.core p.op in
    record {
      code = rw d refl;
      selection = ground arith;
      sqes = f.0 ∙ rw d refl;
      room = omega (arith, f.1);
      agrees = skip_scheduled-Agrees l.core p.op;
    }

asked : Core → ℕ → Core
asked m a = record m {
  room = m.room - 1;
  sqes = cancel_sqe a ∷ m.sqes;
  ops_unsubmitted = m.ops_unsubmitted + 1;
}

pub select_op-Stepped :
    (p : Poll) (l : Loop) (r : ℕ)
    → l.core.room ≡ suc r
    → (l' : Loop) × (select_op p l ≡ ok l') × Stepped p l l'
unfolding select_op um_cancel_op_and_discard_cqe um_cancel_op um_get_sqe asked new_code
    new_selection new_sqes
select_op-Stepped p l r h = elim (Bool-cases (l.core.ops p.op).cqe_done) [
  | inl d ↦ (take_done p l, rw d refl, take_done-Stepped p l d)
  | inr d ↦
      let m = asked l.core p.op in
      let g = set_flags-Agrees m p.op (λ f. record f { canceled = true }) (λ f. refl) in
      (
        record l { core = set_flags m p.op (λ f. record f { canceled = true }) },
        simp (d, h),
        record {
          code = rw d refl;
          selection = rw d refl;
          sqes = rw d refl;
          room = omega (arith, h);
          agrees = record { done = g.done; res = g.res; value = g.value };
        },
      )
]
