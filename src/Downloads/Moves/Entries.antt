-- ===== src/Downloads/Moves/Entries.antt =====
-- How the methods reach a move of the job with its quota entry.
use fetch_now.Prelude.{
  ℕ, ◌≡◌, refl, sym, subst, inl, inr, Bool, true, false, Option, none, some, arith, ok,
}
use fetch_now.Downloads.States.{MediaDownloadJobState, ready, same_state}
use fetch_now.Downloads.Model.{MediaDownloadJob}
use fetch_now.Quota.Model.{QuotaEntry}
use fetch_now.Quota.Ranges.{consume_locked, release_locked}
use fetch_now.Downloads.Slot.{Slot, lock_identity, consume_quota, release_quota}
use fetch_now.Downloads.Moves.{RowMove, Move, unreserved, is_live, coupled}

pub stay : (s : Slot) → Move s s
stay s = record { row = RowMove.idle; entries = inl refl; client = refl }

pub moved_row :
    (s : Slot) (j : MediaDownloadJob)
    → RowMove s.job j
    → is_live s.job.public_state ≡ true
    → is_live j.public_state ≡ true
    → Move s (record s { job = j })
moved_row s j m h k = record { row = m; entries = inr (inl (refl, h, k)); client = refl }

-- A job that has ended has no reservation.
pub lock-release :
    (s : Slot) (j : MediaDownloadJob) (g : Bool) (clock : ℕ) {t : Slot}
    → lock_identity s ≡ ok g
    → release_quota g clock (record s { job = j }) ≡ ok t
    → (t.job ≡ j) × (unreserved t.entry ≡ true) × (t.client ≡ s.client)
unfolding lock_identity release_quota release_locked
lock-release s j true clock h k = ground arith
lock-release s j false clock h k = ground arith

lock-consume :
    (s : Slot) (g : Bool) (clock : ℕ) {t : Slot}
    → consume_quota g clock s ≡ ok t
    → (t.job ≡ s.job) × (t.client ≡ s.client)
unfolding consume_quota consume_locked
lock-consume s true clock k = ground arith
lock-consume s false clock k = ground arith

pub ended :
    (s : Slot) (j : MediaDownloadJob) (g : Bool) (clock : ℕ) {t : Slot}
    → RowMove s.job j
    → is_live j.public_state ≡ false
    → lock_identity s ≡ ok g
    → release_quota g clock (record s { job = j }) ≡ ok t
    → Move s t
ended s j g clock {t} m live h k =
    let (same, free, client) = lock-release s j g clock h k in
    record {
      row = subst (RowMove s.job) (sym same) m;
      entries = inr (inr (inr (free, subst (λ r. is_live r.public_state ≡ false) (sym same) live)));
      client = client;
    }

pub completed :
    (s : Slot) (j : MediaDownloadJob) (g : Bool) (clock : ℕ) {t : Slot}
    → RowMove s.job j
    → same_state j.public_state ready ≡ true
    → consume_quota g clock (record s { job = j }) ≡ ok t
    → Move s t
completed s j g clock {t} m done k =
    let (same, client) = lock-consume (record s { job = j }) g clock k in
    record {
      row = subst (RowMove s.job) (sym same) m;
      entries =
          inr (inr (inl (subst (λ r. same_state r.public_state ready ≡ true) (sym same) done)));
      client = client;
    }

coupled-entries :
    (a b : MediaDownloadJobState) (e : Option QuotaEntry)
    → is_live a ≡ true
    → is_live b ≡ true
    → coupled a e ≡ true
    → coupled b e ≡ true
coupled-entries a b none h k c = refl
coupled-entries a b (some e) h k c = ground arith

coupled_ready :
    (a : MediaDownloadJobState) (e : Option QuotaEntry)
    → same_state a ready ≡ true
    → coupled a e ≡ true
coupled_ready a none h = refl
coupled_ready a (some e) h = ground arith

coupled_ended :
    (a : MediaDownloadJobState) (e : Option QuotaEntry)
    → unreserved e ≡ true
    → is_live a ≡ false
    → coupled a e ≡ true
coupled_ended a none h l = refl
coupled_ended a (some e) h l = ground arith

pub coupled-Move :
    (s t : Slot)
    → Move s t
    → coupled s.job.public_state s.entry ≡ true
    → coupled t.job.public_state t.entry ≡ true
coupled-Move s t m h = elim m.entries [
  | inl same ↦ subst (λ u. coupled u.job.public_state u.entry ≡ true) (sym same) h
  | inr (inl (kept, l, k)) ↦
      subst (λ e. coupled t.job.public_state e ≡ true) (sym kept)
        (coupled-entries s.job.public_state t.job.public_state s.entry l k h)
  | inr (inr (inl done)) ↦ coupled_ready t.job.public_state t.entry done
  | inr (inr (inr (free, live))) ↦ coupled_ended t.job.public_state t.entry free live
]
