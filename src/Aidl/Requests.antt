-- ===== src/Aidl/Requests.antt =====
-- The three requests of a direct channel to a Sensor: the entry of every handle afterwards, and the fields
-- that summarise them.
use bosch_mems_android_hal.Common.{
  ℕ, zero, suc, ◌≡◌, refl, sym, ap, subst, ◌∙◌, inl, inr, true, false, not, List, Option, none,
  some, Map, lookup, insert, erase, lookup-insert, lookup-erase, ◌==◌, ==_iff, Bool-cases,
  if◌then◌else◌, arith,
}
use bosch_mems_android_hal.Aidl.Sensor.{
  Sensor, Channel, Effect, update_direct_channel, stop_entry, stop_direct_channel,
  add_direct_channel, remove_direct_channel,
}
use bosch_mems_android_hal.Aidl.Channels.{IsConsistent, update_direct_channel-IsConsistent}

pub data ChannelRequest : Type 0 where
  adds : ℕ → ℕ → ChannelRequest
  stops : ℕ → ChannelRequest
  removes : ℕ → ChannelRequest

-- What stands under a handle afterwards, from what stood there.
abbrev pub entry_after : ChannelRequest → ℕ → Option Channel → Option Channel
entry_after (adds h p) j old =
    if h == j then some (record { enabled = not (p == 0); sampling_period_ns = p }) else old
entry_after (stops h) j none = none
entry_after (stops h) j (some c) =
    if h == j then some (record { enabled = false; sampling_period_ns = 0 }) else some c
entry_after (removes h) j old = if h == j then none else old

-- The table that a request hands to updateDirectChannel.
pub table_after : ChannelRequest → Map Channel → Map Channel
table_after (adds h p) m =
    if p == 0
    then stop_entry (lookup h (insert h (record { enabled = false; sampling_period_ns = 0 }) m)) h
        (insert h (record { enabled = false; sampling_period_ns = 0 }) m)
    else insert h (record { enabled = true; sampling_period_ns = p }) m
table_after (stops h) m = stop_entry (lookup h m) h m
table_after (removes h) m = erase h m

entry_after-none :
    (h j : ℕ) (o : Option Channel) → (h ≡ j → o ≡ none) → entry_after (stops h) j o ≡ o
entry_after-none h j none f = refl
entry_after-none h j (some c) f = elim (Bool-cases (h == j)) [
  | inl e ↦ let n = f ((==_iff h j).0 e) in cc
  | inr e ↦ rw e
]

entry_after-some :
    (h j : ℕ) (o : Option Channel) (c : Channel)
    → (h ≡ j → o ≡ some c)
    → entry_after (stops h) j o
      ≡ (if h == j then some (record { enabled = false; sampling_period_ns = 0 }) else o)
entry_after-some h j none c f = elim (Bool-cases (h == j)) [
  | inl e ↦ let n = f ((==_iff h j).0 e) in cc
  | inr e ↦ rw e
]
entry_after-some h j (some d) c f = refl

lookup-stop_entry_of :
    (o : Option Channel) (h j : ℕ) (m : Map Channel)
    → lookup h m ≡ o
    → lookup j (stop_entry o h m) ≡ entry_after (stops h) j (lookup j m)
unfolding stop_entry
lookup-stop_entry_of none h j m e =
    sym (entry_after-none h j (lookup j m) (λ q. ap (λ k. lookup k m) (sym q) ∙ e))
lookup-stop_entry_of (some c) h j m e =
    lookup-insert h j _ m
    ∙ sym (entry_after-some h j (lookup j m) c (λ q. ap (λ k. lookup k m) (sym q) ∙ e))

lookup-stop_entry :
    (h j : ℕ) (m : Map Channel)
    → lookup j (stop_entry (lookup h m) h m) ≡ entry_after (stops h) j (lookup j m)
lookup-stop_entry h j m = lookup-stop_entry_of (lookup h m) h j m refl

-- Stopping a handle that was just put in changes nothing.
stopped :
    (h j : ℕ) (o : Option Channel)
    → entry_after
        (stops h)
        j
        (if h == j then some (record { enabled = false; sampling_period_ns = 0 }) else o)
      ≡ (if h == j then some (record { enabled = false; sampling_period_ns = 0 }) else o)
stopped h j o = elim (Bool-cases (h == j)) [ inl e ↦ rw e (rw e) | inr e ↦ other h j o e ]
  where
    other :
        (h j : ℕ) (o : Option Channel)
        → (h == j) ≡ false
        → entry_after
            (stops h)
            j
            (if h == j then some (record { enabled = false; sampling_period_ns = 0 }) else o)
          ≡ (if h == j then some (record { enabled = false; sampling_period_ns = 0 }) else o)
    other h j none e = rw e
    other h j (some c) e = rw e (rw e)

lookup-table_after :
    (r : ChannelRequest) (j : ℕ) (m : Map Channel)
    → lookup j (table_after r m) ≡ entry_after r j (lookup j m)
unfolding table_after
lookup-table_after (adds h zero) j m =
    lookup-stop_entry h j (insert h (record { enabled = false; sampling_period_ns = 0 }) m)
    ∙ ap (entry_after (stops h) j) (lookup-insert h j _ m)
    ∙ stopped h j (lookup j m)
lookup-table_after (adds h (suc p)) j m =
    let e : (suc p == 0) ≡ false = ground arith in rw e (lookup-insert h j _ m)
lookup-table_after (stops h) j m = lookup-stop_entry h j m
lookup-table_after (removes h) j m = lookup-erase h j m

module _ {F : Type 0} where
  unfoldable pub channel_request : ChannelRequest → Sensor F → Sensor F × List (Effect F)
  channel_request (adds h p) s = add_direct_channel h p s
  channel_request (stops h) s = stop_direct_channel h s
  channel_request (removes h) s = remove_direct_channel h s

  pub channel_request-eq :
      (r : ChannelRequest) (s : Sensor F)
      → channel_request r s
        ≡ update_direct_channel (record s { direct_channels = table_after r s.direct_channels })
  unfolding channel_request add_direct_channel stop_direct_channel remove_direct_channel table_after
  channel_request-eq (adds h p) s = elim (Bool-cases (p == 0)) [ inl e ↦ rw e | inr e ↦ rw e ]
  channel_request-eq (stops h) s = refl
  channel_request-eq (removes h) s = refl

  -- After any of the three requests on any sensor: adding a channel puts its period under its handle and
  -- enables it unless the period is 0, stopping disables it if it is there, removing takes it out, and
  -- no other handle changes; the rate of the direct channels is the shortest period of those that
  -- are then enabled (the largest 64-bit number if none is), and they count as enabled exactly if one is.
  pub channel_request-lem :
      (r : ChannelRequest) (s : Sensor F)
      → let s' = (channel_request r s).0 in
        ((j : ℕ) → lookup j s'.direct_channels ≡ entry_after r j (lookup j s.direct_channels))
        × IsConsistent s'
  channel_request-lem r s =
      let t = record s { direct_channels = table_after r s.direct_channels } in
      let (ok, same) = update_direct_channel-IsConsistent t in
      subst
        (λ (u : Sensor F × List (Effect F)).
          ((j : ℕ) → lookup j u.0.direct_channels ≡ entry_after r j (lookup j s.direct_channels))
          × IsConsistent u.0)
        (sym (channel_request-eq r s))
        ((λ j. ap (lookup j) same ∙ lookup-table_after r j s.direct_channels), ok)
