-- ===== src/Poll/Sweep.antt =====
-- pkg/connector/cache_sweep.go: expiring the client's in-memory maps.
pub mod Kept
use mautrix_teams.Base.{ℕ, ◌+◌, ◌-◌, Bool, true, false, Option, none, some, [], ◌∷◌, if◌then◌else◌}
use mautrix_teams.Base.Text.{Text}
use mautrix_teams.Base.Assoc.{Assoc, lookup}
use mautrix_teams.Client.{Client, StampedSig}
use mautrix_teams.Cursor.{forget}
use mautrix_teams.Poll.Time.{Time, before}
use mautrix_teams.Poll.Wake.{PollState, thread_active_window}

abbrev pub reaction_state_ttl : ℕ
reaction_state_ttl = 43_200_000_000_000

abbrev pub chat_info_ttl : ℕ
chat_info_ttl = 43_200_000_000_000

abbrev pub typing_dedup_window : ℕ
typing_dedup_window = 3_000_000_000

abbrev pub receipt_idle_poll_interval : ℕ
receipt_idle_poll_interval = 120_000_000_000

-- Of pkg/connector/thread_discovery.go.
abbrev pub name_lookup_miss_ttl : ℕ
name_lookup_miss_ttl = 21_600_000_000_000

abbrev pub seen_at : StampedSig → Time
seen_at s = s.at

abbrev pub time_of : Time → Time
time_of t = t

-- `sweepBefore`: the entries that stay, and how many went.
module _ {ℓ} {V : Type ℓ} where
  unfoldable pub sweep_before : Assoc V → Time → (V → Time) → Assoc V × ℕ
  sweep_before [] cutoff at = ([], 0)
  sweep_before ((k, v) ∷ m) cutoff at =
      let (rest, removed) = sweep_before m cutoff at in
      if before (at v) cutoff then (rest, removed + 1) else ((k, v) ∷ rest, removed)

module _ {E : Type 0} where
  -- `sweepCaches`.
  unfoldable pub sweep_caches : Client E → Time → Client E × ℕ
  sweep_caches c now =
      let (reaction_sigs, a) = sweep_before c.reaction_sigs (now - reaction_state_ttl) seen_at in
      let (reaction_seen, b) = sweep_before c.reaction_seen (now - reaction_state_ttl) time_of in
      let (edit_times, d) = sweep_before c.edit_times (now - reaction_state_ttl) seen_at in
      let (chat_info_sigs, e) = sweep_before c.chat_info_sigs (now - chat_info_ttl) seen_at in
      let (typing_seen, f) = sweep_before c.typing_seen (now - typing_dedup_window) time_of in
      let (thread_active, g) = sweep_before c.thread_active (now - thread_active_window) time_of in
      let (receipt_poll, h) =
        sweep_before c.receipt_poll (now - receipt_idle_poll_interval) time_of in
      let (name_lookup_miss, i) =
        sweep_before c.name_lookup_miss (now - name_lookup_miss_ttl) time_of in
      (
        record c {
          reaction_sigs = reaction_sigs;
          reaction_seen = reaction_seen;
          edit_times = edit_times;
          chat_info_sigs = chat_info_sigs;
          typing_seen = typing_seen;
          thread_active = thread_active;
          receipt_poll = receipt_poll;
          name_lookup_miss = name_lookup_miss;
        },
        a + b + d + e + f + g + h + i,
      )

is_listed : Option Text → Bool
is_listed none = false
is_listed (some t) = true

module _ {E : Type 0} where
  -- `forgetRemovedThreads`; `listed` holds the IDs as its keys.
  unfoldable pub forget_removed_threads :
      Client E → Assoc PollState → Assoc Text → Client E × Assoc PollState
  unfolding is_listed
  forget_removed_threads c [] listed = (c, [])
  forget_removed_threads c ((thread_id, ps) ∷ states) listed =
      let there = is_listed (lookup thread_id listed) in
      let (c', states') =
        forget_removed_threads
          (if there then c else record c { cursors = forget c.cursors thread_id }) states listed in
      (c', if there then (thread_id, ps) ∷ states' else states')
