-- ===== src/Aidl/Channels.antt =====
-- The direct channels of a Sensor: addDirectChannel, stopDirectChannel, removeDirectChannel and
-- updateDirectChannel.
use mathlib.Core.List.{Memᴰ}
use bosch_mems_android_hal.Common.{
  ℕ, ◌≤◌, ◌≡◌, refl, sym, ap, ◌∙◌, ◌⊎◌, inl, inr, true, ◌&&◌, List, [], ◌∷◌, Map, values, ltb,
  Bool-cases, if◌then◌else◌, arith,
}
use bosch_mems_android_hal.Aidl.Sensor.{
  Sensor, Channel, int64_max, direct_rate, any_channel, update_direct_channel,
}

-- `rate` is the shortest period of the enabled channels, and `best` where that is no shorter.
pub record IsShortestOf (cs : List Channel) (best rate : ℕ) : Type 0 where
  pub at_most_best : rate ≤ best
  pub at_most_each : (c : Channel) → Memᴰ c cs → c.enabled ≡ true → rate ≤ c.sampling_period_ns
  pub attained :
      (rate ≡ best)
      ⊎ ((c : Channel) × Memᴰ c cs × (c.enabled ≡ true) × (rate ≡ c.sampling_period_ns))

next_rate : Channel → ℕ → ℕ
next_rate c best = if c.enabled && ltb c.sampling_period_ns best then c.sampling_period_ns else best

next_rate_cases :
    (c : Channel) (best : ℕ)
    → (next_rate c best ≤ best)
      × (c.enabled ≡ true → next_rate c best ≤ c.sampling_period_ns)
      × ((next_rate c best ≡ best)
          ⊎ ((c.enabled ≡ true) × (next_rate c best ≡ c.sampling_period_ns)))
unfolding next_rate
next_rate_cases c best = elim (Bool-cases c.enabled) [
  | inl e ↦ rw e (ground arith)
  | inr e ↦ rw e (ground arith)
]

direct_rate-IsShortestOf :
    (cs : List Channel) (best : ℕ) → IsShortestOf cs best (direct_rate best cs)
unfolding direct_rate next_rate
direct_rate-IsShortestOf [] best = record {
  at_most_best = omega arith;
  at_most_each = λ c h e. elim h [ ];
  attained = inl refl;
}
direct_rate-IsShortestOf (c ∷ cs) best =
    extend (next_rate_cases c best) (direct_rate-IsShortestOf cs (next_rate c best))
  where
    extend :
        (next_rate c best ≤ best)
          × (c.enabled ≡ true → next_rate c best ≤ c.sampling_period_ns)
          × ((next_rate c best ≡ best)
              ⊎ ((c.enabled ≡ true) × (next_rate c best ≡ c.sampling_period_ns)))
        → IsShortestOf cs (next_rate c best) (direct_rate (next_rate c best) cs)
        → IsShortestOf (c ∷ cs) best (direct_rate (next_rate c best) cs)
    extend (le, each, from) ih = record {
      at_most_best = omega (arith, ih.at_most_best);
      at_most_each = at_each;
      attained = reach from ih.attained;
    }
      where
        at_each :
            (d : Channel)
            → Memᴰ d (c ∷ cs)
            → d.enabled ≡ true
            → direct_rate (next_rate c best) cs ≤ d.sampling_period_ns
        at_each d (Memᴰ.head h) e =
            let below = each (ap (λ x. x.enabled) (sym h) ∙ e) in
            omega (arith, below, ih.at_most_best, ap (λ (x : Channel). x.sampling_period_ns) h)
        at_each d (Memᴰ.tail h) e = ih.at_most_each d h e

        reach :
            (next_rate c best ≡ best)
              ⊎ ((c.enabled ≡ true) × (next_rate c best ≡ c.sampling_period_ns))
            → (direct_rate (next_rate c best) cs ≡ next_rate c best)
              ⊎ ((d : Channel) × Memᴰ d cs
                  × (d.enabled ≡ true)
                  × (direct_rate (next_rate c best) cs ≡ d.sampling_period_ns))
            → (direct_rate (next_rate c best) cs ≡ best)
              ⊎ ((d : Channel) × Memᴰ d (c ∷ cs)
                  × (d.enabled ≡ true)
                  × (direct_rate (next_rate c best) cs ≡ d.sampling_period_ns))
        reach (inl e) (inl u) = inl (u ∙ e)
        reach (inr (on, e)) (inl u) = inr (c, Memᴰ.head refl, on, u ∙ e)
        reach f (inr (d, m, on, e)) = inr (d, Memᴰ.tail m, on, e)

any_channel-to :
    (m : Map Channel)
    → any_channel m ≡ true
    → (c : Channel) × Memᴰ c (values m) × (c.enabled ≡ true)
any_channel-to [] e = cc
any_channel-to ((k, c) ∷ m) e = elim (Bool-cases c.enabled) [
  | inl on ↦ (c, Memᴰ.head refl, on)
  | inr off ↦ let (d, h, on) = any_channel-to m (rw off at e) in (d, Memᴰ.tail h, on)
]

any_channel-from :
    (m : Map Channel) (c : Channel) → Memᴰ c (values m) → c.enabled ≡ true → any_channel m ≡ true
any_channel-from [] c h on = elim h [ ]
any_channel-from ((k, d) ∷ m) c (Memᴰ.head h) on =
    let on' : d.enabled ≡ true = ap (λ x. x.enabled) (sym h) ∙ on in rw on'
any_channel-from ((k, d) ∷ m) c (Memᴰ.tail h) on = ground (arith, any_channel-from m c h on)

-- What the two fields that summarise the channels say.
pub record IsConsistent {F : Type 0} (s : Sensor F) : Type 0 where
  pub shortest : IsShortestOf (values s.direct_channels) int64_max s.direct_channel_rate_ns
  pub enabled_if :
      (c : Channel)
      → Memᴰ c (values s.direct_channels)
      → c.enabled ≡ true
      → s.direct_channel_enabled ≡ true
  pub enabled_by :
      s.direct_channel_enabled ≡ true
      → (c : Channel) × Memᴰ c (values s.direct_channels) × (c.enabled ≡ true)

pub update_direct_channel-IsConsistent :
    {F : Type 0} (s : Sensor F)
    → IsConsistent (update_direct_channel s).0
      × ((update_direct_channel s).0.direct_channels ≡ s.direct_channels)
unfolding update_direct_channel
update_direct_channel-IsConsistent s = (
  record {
    shortest = direct_rate-IsShortestOf (values s.direct_channels) int64_max;
    enabled_if = any_channel-from s.direct_channels;
    enabled_by = any_channel-to s.direct_channels;
  },
  refl,
)
