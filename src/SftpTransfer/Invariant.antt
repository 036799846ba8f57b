-- ===== src/SftpTransfer/Invariant.antt =====
-- What holds of every transfer that internal/sftpmanager/manager_transfer.go can bring about.
use myapptest.Common.{
  ℕ, ◌<◌, Bool, true, false, false≢true, true≢false, Option, none, some, List, ◌≡◌, refl, sym, ap,
  ◌∙◌, ◌⊎◌, inl, inr, any, nat_beq, All,
}
use myapptest.SftpTransfer.{
  SftpTransferStatus, SftpTransferState, Transfer, Worker, waiting, going, ended, blocked, queued,
  planning, running, pausing, paused, resuming, completed, partial_failed, failed, canceled,
  skipped, apply_transfer_controls, is_transfer_cancelable,
}
use myapptest.SftpTransfer.Control.{pause_from, or_same, to_pausing, forget_pause}

-- A transfer that has not ended and does not wait for the user.
abbrev pub is_live : SftpTransferStatus → Bool
is_live queued = true
is_live planning = true
is_live running = true
is_live pausing = true
is_live resuming = true
is_live _ = false

-- What holds where the goroutine is. A goroutine that is blocked has a channel that is taken to be
-- closed, or the transfer is shown as paused and has that channel for the user to close.
unfoldable pub IsValidAt :
    Worker → Option ℕ → List ℕ → SftpTransferStatus → (pause_requested : Bool) → Type 0
IsValidAt waiting ch taken status pause = (ch ≡ none) × (is_live status ≡ true)
IsValidAt going ch taken status pause = (ch ≡ none) × (is_live status ≡ true)
IsValidAt ended ch taken status pause = is_transfer_cancelable status ≡ false
IsValidAt (blocked c) ch taken status pause =
    ((any (nat_beq c) taken ≡ true) × (ch ≡ none) × (is_live status ≡ true))
    ⊎ ((any (nat_beq c) taken ≡ false) × (ch ≡ some c) × (status ≡ paused) × (pause ≡ true))

-- Channels that were made.
abbrev pub AreMade : ℕ → Option ℕ → List ℕ → Type 0
AreMade made none taken = All (λ c. c < made) taken
AreMade made (some d) taken = (d < made) × All (λ c. c < made) taken

-- No channel is closed but one that was taken.
abbrev pub AreTaken : (taken closed : List ℕ) → Type 0
AreTaken taken closed = All (λ c. any (nat_beq c) taken ≡ true) closed

unfoldable pub IsValid : Transfer → Type 0
unfolding IsValidAt
IsValid item =
    IsValidAt item.worker item.resume_ch item.taken item.state.status item.state.pause_requested
    × AreMade item.made item.resume_ch item.taken
    × AreTaken item.taken item.closed

live-cancelable : (s : SftpTransferStatus) → is_live s ≡ true → is_transfer_cancelable s ≡ true
unfolding is_transfer_cancelable
live-cancelable queued h = refl
live-cancelable planning h = refl
live-cancelable running h = refl
live-cancelable pausing h = refl
live-cancelable resuming h = refl
live-cancelable paused h = cc
live-cancelable completed h = cc
live-cancelable partial_failed h = cc
live-cancelable failed h = cc
live-cancelable canceled h = cc
live-cancelable skipped h = cc

-- A change from a live status to a live one.
pub live-IsValidAt :
    (k : Worker) (ch : Option ℕ) (taken : List ℕ) (s t : SftpTransferStatus) (p q : Bool)
    → is_live s ≡ true
    → is_live t ≡ true
    → IsValidAt k ch taken s p
    → IsValidAt k ch taken t q
unfolding IsValidAt
live-IsValidAt waiting ch taken s t p q l m (e, h) = (e, m)
live-IsValidAt going ch taken s t p q l m (e, h) = (e, m)
live-IsValidAt ended ch taken s t p q l m h = absurd (true≢false (sym (live-cancelable s l) ∙ h))
live-IsValidAt (blocked c) ch taken s t p q l m (inl (d, e, h)) = inl (d, e, m)
live-IsValidAt (blocked c) ch taken s t p q l m (inr (d, e, h, r)) =
    absurd (false≢true (sym (ap is_live h) ∙ l))

-- A live transfer has no channel.
pub live-none :
    (k : Worker) (ch : Option ℕ) (taken : List ℕ) (s : SftpTransferStatus) (p : Bool)
    → is_live s ≡ true
    → IsValidAt k ch taken s p
    → ch ≡ none
unfolding IsValidAt
live-none waiting ch taken s p l (e, h) = e
live-none going ch taken s p l (e, h) = e
live-none ended ch taken s p l h = absurd (true≢false (sym (live-cancelable s l) ∙ h))
live-none (blocked c) ch taken s p l (inl (d, e, h)) = e
live-none (blocked c) ch taken s p l (inr (d, e, h, r)) =
    absurd (false≢true (sym (ap is_live h) ∙ l))

-- A live transfer that is given a live status, with its channels as they are.
pub live-IsValid :
    (item : Transfer) (state : SftpTransferState)
    → is_live item.state.status ≡ true
    → is_live state.status ≡ true
    → IsValid item
    → IsValid (record item { state = state })
unfolding IsValid
live-IsValid item state l m (v, made, sub) = (
  live-IsValidAt item.worker item.resume_ch item.taken item.state.status state.status
      item.state.pause_requested state.pause_requested l m v,
  made,
  sub,
)

-- The flags of a state make no difference.
same-IsValid :
    (item : Transfer)
    → IsValid item
    → IsValid (record item { state = apply_transfer_controls item.state })
unfolding IsValid apply_transfer_controls
same-IsValid item v = v

pub pause_from-IsValid :
    (s : SftpTransferStatus) (item : Transfer)
    → item.state.status ≡ s
    → IsValid item
    → IsValid (or_same (pause_from s item) item)
unfolding pause_from to_pausing apply_transfer_controls
pause_from-IsValid queued item e v = live-IsValid item (to_pausing item.state) (ap is_live e) refl v
pause_from-IsValid planning item e v =
    live-IsValid item (to_pausing item.state) (ap is_live e) refl v
pause_from-IsValid running item e v =
    live-IsValid item (to_pausing item.state) (ap is_live e) refl v
pause_from-IsValid resuming item e v =
    live-IsValid item (to_pausing item.state) (ap is_live e) refl v
pause_from-IsValid pausing item e v =
    live-IsValid item (apply_transfer_controls item.state) (ap is_live e) (ap is_live e) v
pause_from-IsValid paused item e v = same-IsValid item v
pause_from-IsValid completed item e v = v
pause_from-IsValid partial_failed item e v = v
pause_from-IsValid failed item e v = v
pause_from-IsValid canceled item e v = v
pause_from-IsValid skipped item e v = v

pub forget_pause-IsValid :
    (item : Transfer)
    → is_live item.state.status ≡ true
    → IsValid item
    → IsValid (forget_pause item)
unfolding forget_pause apply_transfer_controls
forget_pause-IsValid item l v =
    live-IsValid item (apply_transfer_controls (record item.state { pause_requested = false })) l l
      v
