-- ===== src/Dialog/Act.antt =====
-- The steps that the functions of sip/projectsipdialog.cpp are made of: their sequence, the read of a
-- member or through a pointer, and the steps that only set members.
use project_mediaswitch.Base.{
  ℕ, ◌-◌, ◌%◌, Bool, false, List, [], ◌∷◌, ◌++◌, Option, none, some, ltb, if◌then◌else◌, ℤ, pos,
  negsuc, ◌>>=◌,
}
use project_mediaswitch.Text.Substring.{Substring, of_string, is_valid, str}
use project_mediaswitch.Dialog.{State, Timer, Dialog, Effect}

abbrev pub Sent : Type 0
Sent = Option (Dialog × List Effect)

abbrev pub Act : Type 0
Act = Dialog → Sent

unfoldable pub skip : Act
skip d = some (d, [])

abbrev pub fail : Act
fail d = none

unfoldable pub modify : (Dialog → Dialog) → Act
modify f d = some (f d, [])

unfoldable pub emit : Effect → Act
emit e d = some (d, e ∷ [])

-- What follows a step, with what the step sent put in front.
abbrev pub followed : List Effect → Sent → Sent
followed sent m = m >>= λ done. some (done.0, sent ++ done.1)

infixr 4 ◌>>◌
unfoldable pub ◌>>◌ : Act → Act → Act
(m >> n) d = m d >>= λ done. followed done.1 (n done.0)

-- A step that reads the dialog, one that reads through a pointer, and a test.
unfoldable pub with : (Dialog → Act) → Act
with k d = k d d

unfoldable pub through {ℓ} : {A : Type ℓ} → Option A → (A → Act) → Act
through o k d = o >>= λ a. k a d

abbrev pub when : Bool → Act → Act
when b m = if b then m else skip

-- The steps that only set members.
abbrev pub go : State → Act
go s = modify (λ d. record d { next_state = s })

-- waitfortimer and canceltimer
abbrev pub wait_for_timer : ℕ → Timer → Act
wait_for_timer ms t = modify (λ d. record d { timer = some (t, ms) })

abbrev pub cancel_timer : Act
cancel_timer = modify (λ d. record d { timer = none })

abbrev pub set_retries : ℕ → Act
set_retries n = modify (λ d. record d { retries = n })

-- `if( !this->theirtag.valid() ) this->theirtag = pk->gettag( … ).strptr()`, where the Bool says that the
-- packet has the header that the tag is read out of.
abbrev pub set_tag : Bool → Substring → Act
set_tag has tag = if has then modify (λ d. record d { their_tag = of_string (str tag) }) else fail

abbrev pub keep_tag : Bool → Substring → Act
keep_tag has tag = with (λ d. if is_valid d.their_tag then skip else set_tag has tag)

-- untrack
abbrev pub untrack : Act
untrack = modify (λ d. record d { timer = none; tracked = false })

-- An `int` out of a wider number, and a `uint32_t` out of an `int`.
abbrev pub uint_mod : ℕ
uint_mod = 4294967296

abbrev pub int_half : ℕ
int_half = 2147483648

abbrev pub narrow : ℤ → ℤ
narrow (pos n) = let m = n % uint_mod in if ltb m int_half then pos m else negsuc (uint_mod - 1 - m)
narrow (negsuc n) =
    let m = n % uint_mod in if ltb m int_half then negsuc m else pos (uint_mod - 1 - m)

abbrev pub to_uint : ℤ → ℕ
to_uint (pos n) = n % uint_mod
to_uint (negsuc n) = uint_mod - 1 - n % uint_mod
