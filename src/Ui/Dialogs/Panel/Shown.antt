-- ===== src/Ui/Dialogs/Panel/Shown.antt =====
-- crates/ui/src/islands/slide_over.rs: what an open panel shows, and one deletion at a time.
use ferrobucket.Base.{
  ℕ, suc, ◌≡◌, ◌<◌, refl, sym, subst, true, false, Option, none, some, ◌⊎◌, inl, inr, if◌then◌else◌,
  arith,
}
use ferrobucket.Base.Text.{Bytes}
use ferrobucket.Error.{Outcome, ok, err}
use ferrobucket.Console.ServerFns.{ObjectDetail}
use ferrobucket.Ui.Dialogs.Panel.{
  SlideOver, asks, loading_from, Reached, start, opened_first, opened_again, loaded, closed, left,
  presigned, presign_done, copied, delete_opened, delete_dismissed, delete_confirmed, delete_done,
  delete_answered, handle_open,
}

-- What is kept: an open panel is loading or has an answer; where it is loading it waits for one;
-- the confirmation is open in an open panel only; deletions are counted.
pub record Shown (heads deletes : ℕ) (p : SlideOver) : Type 0 where
  pub answered : (p.is_open ≡ false) ⊎ ((p.loading ≡ true) ⊎ (asks p.metadata ≡ false))
  pub waits : (p.loading ≡ false) ⊎ (0 < heads)
  pub confirms : (p.delete_confirm_open ≡ false) ⊎ (p.is_open ≡ true)
  pub single : deletes ≡ (if p.deleting then 1 else 0)

first_Shown :
    {heads deletes : ℕ} (p : SlideOver)
    → asks p.metadata ≡ true
    → Shown heads deletes p
    → Shown (suc heads) deletes (handle_open p)
first_Shown p first s = record {
  answered = inr (inl (waiting p.metadata first));
  waits = inr (omega arith);
  confirms = inr refl;
  single = s.single;
}
  where
    waiting :
        (o : Option (Outcome Bytes ObjectDetail)) → asks o ≡ true → loading_from o p.loading ≡ true
    waiting none e = refl
    waiting (some r) e = absurd (cc)

again_Shown :
    {heads deletes : ℕ} (p : SlideOver)
    → asks p.metadata ≡ false
    → Shown heads deletes p
    → Shown heads deletes (handle_open p)
again_Shown {heads} p again s = record {
  answered = inr (inr again);
  waits = subst (λ b. (b ≡ false) ⊎ (0 < heads)) (sym (kept p.metadata again)) s.waits;
  confirms = inr refl;
  single = s.single;
}
  where
    kept :
        (o : Option (Outcome Bytes ObjectDetail))
        → asks o ≡ false
        → loading_from o p.loading ≡ p.loading
    kept none e = absurd (cc)
    kept (some r) e = refl

done_Shown :
    (r : Outcome Bytes (Unit {0})) {heads deletes : ℕ} (p : SlideOver)
    → Shown heads (suc deletes) p
    → Shown heads deletes (delete_answered r p).0
done_Shown (ok _) p s = record {
  answered = inl refl;
  waits = s.waits;
  confirms = inl refl;
  single = ground (arith, s.single);
}
done_Shown (err e) p s = record {
  answered = s.answered;
  waits = s.waits;
  confirms = s.confirms;
  single = ground (arith, s.single);
}

-- In whatever order the user acts and the server answers, an open panel of an object is loading or
-- shows an answer, a panel that is loading waits for one, the confirmation is only open in an open
-- panel, and there is one deletion under way exactly while the panel says so, else none.
pub Shown-Reached :
    (heads deletes : ℕ) (p : SlideOver) → Reached heads deletes p → Shown heads deletes p
Shown-Reached h d p start = record {
  answered = inl refl;
  waits = inl refl;
  confirms = inl refl;
  single = refl;
}
Shown-Reached h d p (opened_first {p = q} before first) =
    first_Shown q first (Shown-Reached _ _ q before)
Shown-Reached h d p (opened_again {p = q} before again) =
    again_Shown q again (Shown-Reached _ _ q before)
Shown-Reached h d p (loaded r {p = q} before) =
    let s = Shown-Reached _ _ q before in
    record { answered = inr (inr refl); waits = inl refl; confirms = s.confirms; single = s.single }
Shown-Reached h d p (closed {p = q} before there) =
    let s = Shown-Reached _ _ q before in
    record { answered = inl refl; waits = s.waits; confirms = inl refl; single = s.single }
Shown-Reached h d p (left {p = q} before there) =
    let s = Shown-Reached _ _ q before in
    record { answered = inl refl; waits = s.waits; confirms = inl refl; single = s.single }
Shown-Reached h d p (presigned {p = q} before there) =
    let s = Shown-Reached _ _ q before in
    record { answered = s.answered; waits = s.waits; confirms = s.confirms; single = s.single }
Shown-Reached h d p (presign_done {p = q} before) =
    let s = Shown-Reached _ _ q before in
    record { answered = s.answered; waits = s.waits; confirms = s.confirms; single = s.single }
Shown-Reached h d p (copied {p = q} before) =
    let s = Shown-Reached _ _ q before in
    record { answered = s.answered; waits = s.waits; confirms = s.confirms; single = s.single }
Shown-Reached h d p (delete_opened {p = q} before there) =
    let s = Shown-Reached _ _ q before in
    record { answered = s.answered; waits = s.waits; confirms = inr there; single = s.single }
Shown-Reached h d p (delete_dismissed {p = q} before there) =
    let s = Shown-Reached _ _ q before in
    record { answered = s.answered; waits = s.waits; confirms = inl refl; single = s.single }
Shown-Reached h d p (delete_confirmed {p = q} before there idle) =
    let s = Shown-Reached _ _ q before in
    record {
      answered = s.answered;
      waits = s.waits;
      confirms = s.confirms;
      single = (let none_before = (rw idle at s.single) in omega (arith, none_before));
    }
Shown-Reached h d p (delete_done r {p = q} before) = done_Shown r q (Shown-Reached _ _ q before)
