-- ===== src/Dialog/Call.antt =====
-- A call as the control server knows it, apart from packets, states and timers: an abstract machine
-- that rings, is answered, is admitted and hangs up, and what its runs keep.
pub mod Challenges
pub mod Delivery
pub mod Runs
pub mod Sends
pub mod Refines
pub mod Events
use project_mediaswitch.Base.{
  ℕ, ◌≡◌, refl, sym, ap, ◌∙◌, Bool, true, false, Bytes, arith, ◌⊎◌, inl, inr,
}
use project_mediaswitch.Dialog.{Dialog}

pub record Call : Type 0 where
  pub call_id : Bytes
  pub our_tag : Bytes
  pub originator : Bool
  pub start_at : ℕ
  pub admitted : Bool
  pub ringing : Bool
  pub ringing_at : ℕ
  pub answered : Bool
  pub answer_at : ℕ
  pub hung_up : Bool
  pub end_at : ℕ

abbrev pub call_of : Dialog → Call
call_of d = record {
  call_id = d.call_id;
  our_tag = d.our_tag;
  originator = d.originator;
  start_at = d.start_at;
  admitted = d.authenticated;
  ringing = d.call_ringing;
  ringing_at = d.ringing_at;
  answered = d.call_answered;
  answer_at = d.answer_at;
  hung_up = d.call_hung_up;
  end_at = d.end_at;
}

-- The rules of a run: the times that the clock shows in it, and what it takes to be admitted.
pub record Rules : Type 1 where
  pub Shown : ℕ → Type 0
  pub Reason : Type 0

-- One step of a call.
pub data Move (R : Rules) (c c' : Call) : Type 0 where
  rings : (now : ℕ) → R.Shown now → c' ≡ record c { ringing = true; ringing_at = now } → Move R c c'
  answers :
      (now : ℕ) → R.Shown now → c' ≡ record c { answered = true; answer_at = now } → Move R c c'
  hangs_up : (now : ℕ) → R.Shown now → c' ≡ record c { hung_up = true; end_at = now } → Move R c c'
  admits : R.Reason → c' ≡ record c { admitted = true } → Move R c c'

pub data Moves (R : Rules) (c : Call) : Call → Type 0 where
  stays : Moves R c c
  moves : {b c' : Call} → Moves R c b → Move R b c' → Moves R c c'

pub Moves-trans : {R : Rules} {a b c : Call} → Moves R a b → Moves R b c → Moves R a c
Moves-trans h stays = h
Moves-trans h (moves g m) = moves (Moves-trans h g) m

-- Rules may be weakened.
pub Moves-map :
    {R S : Rules} {a b : Call}
    → ((n : ℕ) → R.Shown n → S.Shown n)
    → (R.Reason → S.Reason)
    → Moves R a b
    → Moves S a b
Moves-map t f stays = stays
Moves-map t f (moves g (rings now n e)) = moves (Moves-map t f g) (rings now (t now n) e)
Moves-map t f (moves g (answers now n e)) = moves (Moves-map t f g) (answers now (t now n) e)
Moves-map t f (moves g (hangs_up now n e)) = moves (Moves-map t f g) (hangs_up now (t now n) e)
Moves-map t f (moves g (admits r e)) = moves (Moves-map t f g) (admits (f r) e)

-- What a call keeps: who it is, and everything that has happened.
pub record Kept (c c' : Call) : Type 0 where
  pub same_id : c'.call_id ≡ c.call_id
  pub same_tag : c'.our_tag ≡ c.our_tag
  pub same_side : c'.originator ≡ c.originator
  pub same_start : c'.start_at ≡ c.start_at
  pub still_admitted : c.admitted ≡ true → c'.admitted ≡ true
  pub still_ringing : c.ringing ≡ true → c'.ringing ≡ true
  pub still_answered : c.answered ≡ true → c'.answered ≡ true
  pub still_hung_up : c.hung_up ≡ true → c'.hung_up ≡ true

Kept-refl : (c : Call) → Kept c c
Kept-refl c = record {
  same_id = refl;
  same_tag = refl;
  same_side = refl;
  same_start = refl;
  still_admitted = λ h. h;
  still_ringing = λ h. h;
  still_answered = λ h. h;
  still_hung_up = λ h. h;
}

Kept-Move : {R : Rules} {a b c : Call} → Kept a b → Move R b c → Kept a c
Kept-Move k (rings now n e) = rw e (record {
  same_id = k.same_id;
  same_tag = k.same_tag;
  same_side = k.same_side;
  same_start = k.same_start;
  still_admitted = k.still_admitted;
  still_ringing = λ h. refl;
  still_answered = k.still_answered;
  still_hung_up = k.still_hung_up;
})
Kept-Move k (answers now n e) = rw e (record {
  same_id = k.same_id;
  same_tag = k.same_tag;
  same_side = k.same_side;
  same_start = k.same_start;
  still_admitted = k.still_admitted;
  still_ringing = k.still_ringing;
  still_answered = λ h. refl;
  still_hung_up = k.still_hung_up;
})
Kept-Move k (hangs_up now n e) = rw e (record {
  same_id = k.same_id;
  same_tag = k.same_tag;
  same_side = k.same_side;
  same_start = k.same_start;
  still_admitted = k.still_admitted;
  still_ringing = k.still_ringing;
  still_answered = k.still_answered;
  still_hung_up = λ h. refl;
})
Kept-Move k (admits r e) = rw e (record {
  same_id = k.same_id;
  same_tag = k.same_tag;
  same_side = k.same_side;
  same_start = k.same_start;
  still_admitted = λ h. refl;
  still_ringing = k.still_ringing;
  still_answered = k.still_answered;
  still_hung_up = k.still_hung_up;
})

pub Moves-Kept : {R : Rules} {a b : Call} → Moves R a b → Kept a b
Moves-Kept {a = a} stays = Kept-refl a
Moves-Kept (moves g m) = Kept-Move (Moves-Kept g) m

-- The times of what has not happened are 0.
pub record Stamped (c : Call) : Type 0 where
  pub rang : c.ringing ≡ false → c.ringing_at ≡ 0
  pub was_answered : c.answered ≡ false → c.answer_at ≡ 0
  pub ended : c.hung_up ≡ false → c.end_at ≡ 0

Stamped-Move : {R : Rules} {b c : Call} → Stamped b → Move R b c → Stamped c
Stamped-Move s (rings now n e) =
    rw e (record { rang = λ h. cc; was_answered = s.was_answered; ended = s.ended })
Stamped-Move s (answers now n e) =
    rw e (record { rang = s.rang; was_answered = λ h. cc; ended = s.ended })
Stamped-Move s (hangs_up now n e) =
    rw e (record { rang = s.rang; was_answered = s.was_answered; ended = λ h. cc })
Stamped-Move s (admits r e) =
    rw e (record { rang = s.rang; was_answered = s.was_answered; ended = s.ended })

pub Moves-Stamped : {R : Rules} {a b : Call} → Moves R a b → Stamped a → Stamped b
Moves-Stamped stays s = s
Moves-Stamped (moves g m) s = Stamped-Move (Moves-Stamped g s) m

-- A call that was admitted on the way had a reason.
pub Moves-reason :
    {R : Rules} {a b : Call} → Moves R a b → a.admitted ≡ false → b.admitted ≡ true → R.Reason
Moves-reason stays off on = elim (differ (sym off ∙ on)) [ ]
  where
    differ : false ≡ true → ⊥
    differ h = cc
Moves-reason (moves g (rings now n e)) off on = Moves-reason g off (rw e at on)
Moves-reason (moves g (answers now n e)) off on = Moves-reason g off (rw e at on)
Moves-reason (moves g (hangs_up now n e)) off on = Moves-reason g off (rw e at on)
Moves-reason (moves g (admits r e)) off on = r
