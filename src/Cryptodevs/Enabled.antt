-- ===== src/Cryptodevs/Enabled.antt =====
-- Which crypto devices `initialize_cryptodevs` enables.
use xyz.Prelude.{
  ℕ, zero, suc, ◌+◌, ◌-◌, ◌/◌, ◌%◌, ◌^◌, ◌<◌, ◌≡◌, ◌≢◌, ◌⊎◌, ◌∙◌, refl, sym, ap, Bool, true, false,
  not, ltb, ◌==◌, if◌then◌else◌, Option, none, some, List, [], ◌∷◌, take, length, Bool-cases, inl,
  inr, arith,
}
use mathlib.Core.Option.{some-injective, none-ne-some}
use xyz.CommandLine.{CryptoOptions}
use xyz.Capability.{Options, check_cryptodev_mask, check_capabilities}
use xyz.Capability.Accepts.{ChainFits, then_check_both, check_capabilities-ChainFits}
use xyz.Cryptodevs.{
  CryptoDev, EnabledDevs, capability_options, suits, found_one, found, tested, enable_loop,
}

-- The bit of the device in the mask; for device 31, one of the bits from 31 on.
abbrev pub Selected : ℕ → ℕ → Type 0
Selected mask cdev_id =
    ((cdev_id < 31) × (mask / 2 ^ cdev_id % 2 ≡ 1))
    ⊎ ((cdev_id ≡ 31) × (mask / 2 ^ 31 % 2 ^ 33 ≢ 0))

pub Fits : CryptoOptions → ℕ → CryptoDev → Type 0
Fits o cdev_id d =
    Selected (capability_options o).cryptodev_mask cdev_id
    × ChainFits (capability_options o).xform_chain (capability_options o) d.info

selected :
    (o : Options) (cdev_id : ℕ)
    → check_cryptodev_mask o cdev_id ≡ some true
    → Selected o.cryptodev_mask cdev_id
unfolding check_cryptodev_mask
selected o cdev_id h = elim (Bool-cases (ltb cdev_id 31)) [
  | inl low ↦
      let e : some (o.cryptodev_mask / 2 ^ cdev_id % 2 == 1) ≡ some true = sym (rw low refl) ∙ h in
      let bit = some-injective _ _ e in inl (ground (arith, low), ground (arith, bit))
  | inr high ↦ elim (Bool-cases (cdev_id == 31)) [
    | inl last ↦
        let e : some (not (o.cryptodev_mask / 2 ^ 31 % 2 ^ 33 == 0)) ≡ some true =
          sym (rw (high, last) refl) ∙ h in
        let bit = some-injective _ _ e in inr (ground (arith, last), ground (arith, bit))
    | inr above ↦ absurd (none-ne-some true (sym (rw (high, above) refl) ∙ h))
  ]
]

suits-Fits :
    (o : CryptoOptions) (cdev_id : ℕ) (d : CryptoDev)
    → suits o cdev_id d ≡ some true
    → Fits o cdev_id d
unfolding suits Fits
suits-Fits o cdev_id d h =
    let c = capability_options o in
    let (mask, able) =
      then_check_both (check_cryptodev_mask c cdev_id) (check_capabilities c d.info) h in
    (selected c cdev_id mask, check_capabilities-ChainFits c d.info able)

is_yes : Option Bool → Bool
is_yes none = false
is_yes (some b) = b

-- The numbers of the devices that suit, from `cdev_id` on.
pub suitable : CryptoOptions → ℕ → List CryptoDev → List ℕ
unfolding is_yes
suitable o cdev_id [] = []
suitable o cdev_id (d ∷ ds) =
    let rest = suitable o (cdev_id + 1) ds in
    if is_yes (suits o cdev_id d) then cdev_id ∷ rest else rest

-- The checks of each device end, and none shifts too far.
abbrev pub AllAnswered : CryptoOptions → ℕ → List CryptoDev → Type 0
AllAnswered o cdev_id [] = Unit
AllAnswered o cdev_id (d ∷ ds) =
    ((b : Bool) × (suits o cdev_id d ≡ some b)) × AllAnswered o (cdev_id + 1) ds

-- The numbers of the flags that are set.
pub set_flags : ℕ → List Bool → List ℕ
set_flags cdev_id [] = []
set_flags cdev_id (b ∷ bs) =
    let rest = set_flags (cdev_id + 1) bs in if b then cdev_id ∷ rest else rest

-- Each device whose flag is set is in the mask, and has the capabilities that the options ask for.
pub AllFit : CryptoOptions → ℕ → List CryptoDev → List Bool → Type 0
unfolding Fits
AllFit o cdev_id [] bs = Unit
AllFit o cdev_id (d ∷ ds) [] = Unit
AllFit o cdev_id (d ∷ ds) (true ∷ bs) = Fits o cdev_id d × AllFit o (cdev_id + 1) ds bs
AllFit o cdev_id (d ∷ ds) (false ∷ bs) = AllFit o (cdev_id + 1) ds bs

-- The result of the loop, for `room` devices.
pub record Enabled (o : CryptoOptions) (room cdev_id : ℕ) (ds : List CryptoDev) (f : EnabledDevs)
    : Type 0 where
  pub flags : set_flags cdev_id f.enabled_cdevs ≡ take room (suitable o cdev_id ds)
  pub counted : f.count ≡ length (set_flags cdev_id f.enabled_cdevs)
  pub fit : AllFit o cdev_id ds f.enabled_cdevs

take_none : (room : ℕ) → take {A = ℕ} room [] ≡ []
take_none zero = refl
take_none (suc room) = refl

nothing :
    (o : CryptoOptions) (room cdev_id : ℕ)
    → Enabled o room cdev_id [] (record { enabled_cdevs = []; count = 0; max_sess_sz = 0 })
unfolding set_flags suitable AllFit
nothing o room cdev_id = record { flags = sym (take_none room); counted = refl; fit = tt }

tested_room :
    (o : CryptoOptions) (room cdev_id : ℕ) (d : CryptoDev)
    → tested o (suc room) cdev_id d ≡ suits o cdev_id d
unfolding tested
tested_room o room cdev_id d =
    let some_room : (suc room == 0) ≡ false = ground arith in rw some_room refl

set_one :
    (o : CryptoOptions) (room cdev_id : ℕ) (d : CryptoDev) (ds : List CryptoDev) (f : EnabledDevs)
    → suits o cdev_id d ≡ some true
    → Enabled o room (cdev_id + 1) ds f
    → Enabled o (suc room) cdev_id (d ∷ ds) (found_one f true d.session_size)
unfolding found_one set_flags suitable is_yes AllFit
set_one o room cdev_id d ds f yes_it r = record {
  flags = rw yes_it (ap (λ l. cdev_id ∷ l) r.flags);
  counted = omega (arith, r.counted);
  fit = (suits-Fits o cdev_id d yes_it, r.fit);
}

left_out :
    (o : CryptoOptions) (room cdev_id : ℕ) (d : CryptoDev) (ds : List CryptoDev) (f : EnabledDevs)
    → suits o cdev_id d ≡ some false
    → Enabled o room (cdev_id + 1) ds f
    → Enabled o room cdev_id (d ∷ ds) (found_one f false d.session_size)
unfolding found_one set_flags suitable is_yes AllFit
left_out o room cdev_id d ds f no_it r = record {
  flags = rw no_it r.flags;
  counted = r.counted;
  fit = r.fit;
}

no_room :
    (o : CryptoOptions) (cdev_id : ℕ) (d : CryptoDev) (ds : List CryptoDev) (f : EnabledDevs)
    → Enabled o 0 (cdev_id + 1) ds f
    → Enabled o 0 cdev_id (d ∷ ds) (found_one f false d.session_size)
unfolding found_one set_flags AllFit
no_room o cdev_id d ds f r = record { flags = r.flags; counted = r.counted; fit = r.fit }

-- Where the checks of each device end and no number of a device is above 31: the loop ends; the devices
-- that it enables are the first ones that suit, at most as many as there are ports, and are counted; each
-- of them is selected by the mask and has a capability for each transform of the chain.
pub enable_loop-Enabled :
    (o : CryptoOptions) (room cdev_id : ℕ) (ds : List CryptoDev)
    → AllAnswered o cdev_id ds
    → (f : EnabledDevs) × (enable_loop o room cdev_id ds ≡ some f) × Enabled o room cdev_id ds f
unfolding enable_loop found
enable_loop-Enabled o room cdev_id [] all =
    (record { enabled_cdevs = []; count = 0; max_sess_sz = 0 }, refl, nothing o room cdev_id)
enable_loop-Enabled o zero cdev_id (d ∷ ds) (answer, all) =
    let (f, ends, r) = enable_loop-Enabled o 0 (cdev_id + 1) ds all in
    (
      found_one f false d.session_size,
      rw (enable_loop, tested, ends) refl,
      no_room o cdev_id d ds f r,
    )
enable_loop-Enabled o (suc room) cdev_id (d ∷ ds) ((true, yes_it), all) =
    let (f, ends, r) = enable_loop-Enabled o room (cdev_id + 1) ds all in
    let one_less : suc room - 1 ≡ room = omega arith in
    (
      found_one f true d.session_size,
      rw (enable_loop, tested_room o room cdev_id d, yes_it, one_less, ends) refl,
      set_one o room cdev_id d ds f yes_it r,
    )
enable_loop-Enabled o (suc room) cdev_id (d ∷ ds) ((false, no_it), all) =
    let (f, ends, r) = enable_loop-Enabled o (suc room) (cdev_id + 1) ds all in
    (
      found_one f false d.session_size,
      rw (enable_loop, tested_room o room cdev_id d, no_it, ends) refl,
      left_out o (suc room) cdev_id d ds f no_it r,
    )
