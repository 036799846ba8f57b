-- ===== src/SftpTransfer/Preserved.antt =====
-- That every step of a transfer, in internal/sftpmanager/manager_transfer.go, keeps it valid.
use myapptest.Common.{
  ℕ, Bool, true, false, false≢true, true≢false, Option, none, some, List, Text, ◌≡◌, refl, sym, ap,
  ◌∙◌, inl, inr, any, nat_beq, Bool-cases, ==_self, nat_eq, [], ◌∷◌, All-imp, arith, ◌||◌,
  nat_beq_iff,
}
use mathlib.Core.Path.{subst}
use myapptest.SftpTransfer.{
  SftpTransferStatus, SftpTransferState, Transfer, Worker, waiting, going, ended, blocked, queued,
  planning, running, pausing, paused, resuming, completed, partial_failed, failed, canceled,
  skipped, update_transfer, finish_transfer, apply_transfer_controls, is_transfer_cancelable,
  finished, finish_numbers, is_finished_well,
}
use myapptest.SftpTransfer.Control.{
  resume_from, or_same, go_on, take_channel, to_status, after_pausing,
}
use myapptest.SftpTransfer.Invariant.{
  IsValid, IsValidAt, AreMade, AreTaken, is_live, live-IsValidAt, live-none, forget_pause-IsValid,
}

paused-IsValidAt :
    (k : Worker) (ch : Option ℕ) (taken : List ℕ) (s : SftpTransferStatus) (p : Bool)
    → s ≡ paused
    → IsValidAt k ch taken s p
    → IsValidAt k none (take_channel ch taken) resuming false
unfolding IsValidAt take_channel is_transfer_cancelable
paused-IsValidAt waiting ch taken s p e (c, l) = absurd (false≢true (sym (ap is_live e) ∙ l))
paused-IsValidAt going ch taken s p e (c, l) = absurd (false≢true (sym (ap is_live e) ∙ l))
paused-IsValidAt ended ch taken s p e v =
    absurd (true≢false (sym (ap is_transfer_cancelable e) ∙ v))
paused-IsValidAt (blocked c) ch taken s p e (inl (d, n, l)) =
    absurd (false≢true (sym (ap is_live e) ∙ l))
paused-IsValidAt (blocked c) ch taken s p e (inr (d, n, h, r)) =
    inl (rw n (rw (==_self c) refl), refl, refl)

pausing-IsValidAt :
    (k : Worker) (ch : Option ℕ) (taken : List ℕ) (s : SftpTransferStatus) (p : Bool)
    → is_live s ≡ true
    → ch ≡ none
    → IsValidAt k ch taken s p
    → IsValidAt k none (take_channel ch taken) (after_pausing ch) false
unfolding take_channel
pausing-IsValidAt k none taken s p l e v = live-IsValidAt k none taken s running p false l refl v
pausing-IsValidAt k (some c) taken s p l e v = cc

take_channel-AreMade :
    (made : ℕ) (ch : Option ℕ) (taken : List ℕ)
    → AreMade made ch taken
    → AreMade made none (take_channel ch taken)
unfolding take_channel
take_channel-AreMade made none taken m = m
take_channel-AreMade made (some c) taken m = m

pub taken-kept :
    (c : ℕ) (ch : Option ℕ) (taken : List ℕ)
    → any (nat_beq c) taken ≡ true
    → any (nat_beq c) (take_channel ch taken) ≡ true
unfolding take_channel
taken-kept c none taken h = h
taken-kept c (some d) taken h = ground (arith, h)

take_channel-AreTaken :
    (ch : Option ℕ) (taken closed : List ℕ)
    → AreTaken taken closed
    → AreTaken (take_channel ch taken) closed
take_channel-AreTaken ch taken closed h = All-imp (λ c. taken-kept c ch taken) closed h

-- A channel that is closed was taken.
pub closed-taken :
    (c : ℕ) (taken closed : List ℕ)
    → AreTaken taken closed
    → any (nat_beq c) closed ≡ true
    → any (nat_beq c) taken ≡ true
closed-taken c taken [] h e = absurd (false≢true e)
closed-taken c taken (d ∷ closed) (p, h) e = elim (Bool-cases (nat_beq c d)) [
  | inl same ↦ subst (λ x. any (nat_beq x) taken ≡ true) (sym ((nat_beq_iff c d).0 same)) p
  | inr other ↦
      closed-taken c taken closed h (ap (λ b. b || any (nat_beq c) closed) (sym other) ∙ e)
]

pub resume_from-IsValid :
    (s : SftpTransferStatus) (item : Transfer)
    → item.state.status ≡ s
    → IsValid item
    → IsValid (or_same (resume_from s item) item)
unfolding resume_from go_on to_status IsValid apply_transfer_controls
resume_from-IsValid paused item e (v, m, s) = (
  paused-IsValidAt _ item.resume_ch item.taken item.state.status _ e v,
  take_channel-AreMade item.made item.resume_ch item.taken m,
  take_channel-AreTaken item.resume_ch item.taken item.closed s,
)
resume_from-IsValid pausing item e (v, m, s) =
    let l = ap is_live e in
    let n = live-none _ item.resume_ch item.taken item.state.status _ l v in
    (
      pausing-IsValidAt _ item.resume_ch item.taken item.state.status _ l n v,
      take_channel-AreMade item.made item.resume_ch item.taken m,
      take_channel-AreTaken item.resume_ch item.taken item.closed s,
    )
resume_from-IsValid running item e v = forget_pause-IsValid item (ap is_live e) v
resume_from-IsValid planning item e v = forget_pause-IsValid item (ap is_live e) v
resume_from-IsValid queued item e v = forget_pause-IsValid item (ap is_live e) v
resume_from-IsValid resuming item e v = forget_pause-IsValid item (ap is_live e) v
resume_from-IsValid completed item e v = v
resume_from-IsValid partial_failed item e v = v
resume_from-IsValid failed item e v = v
resume_from-IsValid canceled item e v = v
resume_from-IsValid skipped item e v = v

-- A transfer that ends.
pub finished-status :
    (status : SftpTransferStatus) (message now : Text) (state : SftpTransferState)
    → (finished status message now state).status ≡ status
unfolding finished finish_numbers
finished-status status message now state = elim (Bool-cases (is_finished_well status)) [
  | inl h ↦ rw h refl
  | inr h ↦ rw h refl
]

pub finish_transfer-IsValid :
    (item : Transfer) (status : SftpTransferStatus) (message now : Text)
    → is_transfer_cancelable status ≡ false
    → IsValid item
    → IsValid (finish_transfer status message now item)
unfolding IsValid IsValidAt finish_transfer update_transfer apply_transfer_controls
finish_transfer-IsValid item status message now h (v, m, s) =
    (ap is_transfer_cancelable (finished-status status message now item.state) ∙ h, m, s)

-- A goroutine that goes on.
pub going-IsValidAt :
    (k : Worker) (ch : Option ℕ) (taken : List ℕ) (s : SftpTransferStatus) (p : Bool)
    → k ≡ going
    → IsValidAt k ch taken s p
    → (ch ≡ none) × (is_live s ≡ true)
unfolding IsValidAt
going-IsValidAt waiting ch taken s p e v = v
going-IsValidAt going ch taken s p e v = v
going-IsValidAt ended ch taken s p e v = cc
going-IsValidAt (blocked c) ch taken s p e v = cc

pub waiting-IsValidAt :
    (k : Worker) (ch : Option ℕ) (taken : List ℕ) (s : SftpTransferStatus) (p : Bool)
    → k ≡ waiting
    → IsValidAt k ch taken s p
    → (ch ≡ none) × (is_live s ≡ true)
unfolding IsValidAt
waiting-IsValidAt waiting ch taken s p e v = v
waiting-IsValidAt going ch taken s p e v = v
waiting-IsValidAt ended ch taken s p e v = cc
waiting-IsValidAt (blocked c) ch taken s p e v = cc

blocked_inj : (b c : ℕ) → blocked b ≡ blocked c → b ≡ c
blocked_inj b c e = cc

-- A goroutine whose channel is taken to be closed.
pub woken-IsValidAt :
    (k : Worker) (c : ℕ) (ch : Option ℕ) (taken : List ℕ) (s : SftpTransferStatus) (p : Bool)
    → k ≡ blocked c
    → any (nat_beq c) taken ≡ true
    → IsValidAt k ch taken s p
    → (ch ≡ none) × (is_live s ≡ true)
unfolding IsValidAt
woken-IsValidAt waiting c ch taken s p e d v = cc
woken-IsValidAt going c ch taken s p e d v = cc
woken-IsValidAt ended c ch taken s p e d v = cc
woken-IsValidAt (blocked b) c ch taken s p e d (inl (_, n, l)) = (n, l)
woken-IsValidAt (blocked b) c ch taken s p e d (inr (o, n, h, r)) =
    let same = blocked_inj b c e in
    absurd (false≢true (sym o ∙ ap (λ x. any (nat_beq x) taken) same ∙ d))
