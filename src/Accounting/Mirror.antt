-- ===== src/Accounting/Mirror.antt =====
-- src/capture.rs: what `mirror_fields` does to `FORWARDED` and `EVENTS_LOST`.
use redis_event_stream_modul.Base.{Str, Bytes, ℕ, ℤ, List, refl, arith}
use redis_event_stream_modul.Base.Result.{Result, ok, err}
use redis_event_stream_modul.Redis.{Value, Redis}
use redis_event_stream_modul.Encode.Event.{EntrySpec}
use redis_event_stream_modul.Encode.Retention.{Retention}
use redis_event_stream_modul.Stats.Counters.{Counter, forwarded, add_u64, store, add_to}
use redis_event_stream_modul.Capture.Mirror.{
  MirrorOutcome, written, classify, count_forwarded, recover, count_stream, clear_verified,
  register, provision_group, entry_written, after_xadd, mirror_fields, mirror_encoded, mirror_entry,
}
use redis_event_stream_modul.State.{State}
use redis_event_stream_modul.State.Actions.{◌>>=◌, ◌>>◌, pure, fetch_add}
use redis_event_stream_modul.State.Keeps.{Keeps, keeps_rules, leads_rules, Leads}
use redis_event_stream_modul.Accounting.Auxiliary.{IsAuxiliary, Canonical, primitive_rules}
use redis_event_stream_modul.Accounting.Write.{
  count_forwarded-Canonical, recover-Canonical, count_stream-Canonical, clear_verified-Canonical,
  register-Canonical, provision_group-Canonical,
}

-- The write of `n` events was counted, if there was one.
abbrev pub After : {W : Type 0} → ℕ → ℕ → ℕ → MirrorOutcome → State W → Type 0
After f l n written s = Canonical (add_u64 f n) l s
After f l n _ s = Canonical f l s

module _ {W : Type 0} {f l : ℕ} where
  fetch_add-forwarded :
      (n : ℕ)
      → Leads {W = W} (Canonical f l) (fetch_add forwarded n) (λ _. Canonical (add_u64 f n) l)
  unfolding fetch_add add_to store
  fetch_add-forwarded n = record {
    runs = λ s k. record { forwarded_is = rw k.forwarded_is refl; lost_is = k.lost_is };
  }

  After-classify :
      (n : ℕ) (k m : Str) (s : State W) → Canonical f l s → After f l n (classify k m) s
  unfolding classify
  After-classify n k m s h = ground (arith, h)

module _ {W : Type 0} (R : Redis W) where
  book_keeping :
      (f l : ℕ) (k g : Str) (n : ℕ)
      → Keeps (Canonical f l) (do
        clear_verified
        count_forwarded k n
        recover k
        count_stream k
        register R k g
        provision_group R k
        pure written)
  book_keeping f l k g n =
      search
        (
          primitive_rules, count_forwarded-Canonical, recover-Canonical, count_stream-Canonical,
          clear_verified-Canonical, register-Canonical, provision_group-Canonical,
        )
        depth 20

module _ {W : Type 0} {f l : ℕ} (R : Redis W) where
  entry_written-forwarded :
      (k g : Str) (n : ℕ) → Leads (Canonical f l) (entry_written R k g forwarded n) (After f l n)
  unfolding entry_written ◌>>=◌ pure
  entry_written-forwarded k g n = record {
    runs = λ s h. (book_keeping R _ _ k g n).at _ ((fetch_add-forwarded n).runs s h);
  }

  after_xadd-forwarded :
      (k g : Str) (n : ℕ) (r : Result Str Value)
      → Leads (Canonical f l) (after_xadd R k g forwarded n r) (After f l n)
  unfolding after_xadd pure
  after_xadd-forwarded k g n (ok v) = entry_written-forwarded k g n
  after_xadd-forwarded k g n (err m) = record { runs = λ s h. After-classify n k m s h }

  -- A write of `n` events adds `n` to `FORWARDED` if it is written, and nothing else.
  pub mirror_fields-forwarded :
      (p g x : Str) (fields : List Bytes) (q : Retention) (cap : ℤ) (n : ℕ)
      → Leads (Canonical f l) (mirror_fields R p g x fields q cap forwarded n) (After f l n)
  unfolding mirror_fields
  mirror_fields-forwarded p g x fields q cap n =
      search (primitive_rules, leads_rules, after_xadd-forwarded) depth 14

  mirror_encoded-forwarded :
      (p g x : Str) (fields : Result Str (List Bytes)) (q : Retention) (cap : ℤ)
      → Leads (Canonical f l) (mirror_encoded R p g x fields q cap forwarded) (After f l 1)
  unfolding mirror_encoded
  mirror_encoded-forwarded p g x (ok fields) q cap = mirror_fields-forwarded p g x fields q cap 1
  mirror_encoded-forwarded p g x (err m) q cap = search leads_rules

  pub mirror_entry-forwarded :
      (p g x : Str) (spec : EntrySpec) (q : Retention) (cap : ℤ)
      → Leads (Canonical f l) (mirror_entry R p g x spec q cap forwarded) (After f l 1)
  unfolding mirror_entry
  mirror_entry-forwarded p g x spec q cap = mirror_encoded-forwarded p g x _ q cap

module _ {W : Type 0} {f l : ℕ} (R : Redis W) (c : Counter) (h : IsAuxiliary c) where
  entry_written-Canonical : (k g : Str) (n : ℕ) → Keeps (Canonical f l) (entry_written R k g c n)
  unfolding entry_written
  entry_written-Canonical k g n = search (primitive_rules, book_keeping, h) depth 8

  after_xadd-Canonical :
      (k g : Str) (n : ℕ) (r : Result Str Value) → Keeps (Canonical f l) (after_xadd R k g c n r)
  unfolding after_xadd
  after_xadd-Canonical k g n (ok v) = entry_written-Canonical k g n
  after_xadd-Canonical k g n (err m) = search keeps_rules

  mirror_fields-Canonical :
      (p g x : Str) (fields : List Bytes) (q : Retention) (cap : ℤ) (n : ℕ)
      → Keeps (Canonical f l) (mirror_fields R p g x fields q cap c n)
  unfolding mirror_fields
  mirror_fields-Canonical p g x fields q cap n =
      search (primitive_rules, after_xadd-Canonical) depth 14

  mirror_encoded-Canonical :
      (p g x : Str) (fields : Result Str (List Bytes)) (q : Retention) (cap : ℤ)
      → Keeps (Canonical f l) (mirror_encoded R p g x fields q cap c)
  unfolding mirror_encoded
  mirror_encoded-Canonical p g x (ok fields) q cap = mirror_fields-Canonical p g x fields q cap 1
  mirror_encoded-Canonical p g x (err m) q cap = search keeps_rules

  pub mirror_entry-Canonical :
      (p g x : Str) (spec : EntrySpec) (q : Retention) (cap : ℤ)
      → Keeps (Canonical f l) (mirror_entry R p g x spec q cap c)
  unfolding mirror_entry
  mirror_entry-Canonical p g x spec q cap = mirror_encoded-Canonical p g x _ q cap
