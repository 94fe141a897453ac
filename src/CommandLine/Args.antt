-- ===== src/CommandLine/Args.antt =====
-- `l2fwd_crypto_parse_args` of `main (1).c`, over what getopt_long finds. none is the result -1.
use Prim.Native.String.{String}
use xyz.Prelude.{
  ℕ, ◌%◌, ◌^◌, ◌<◌, true, ◌==◌, ◌||◌, leb, Option, none, some, List, [], ◌∷◌, Bool-cases, inl, inr,
  arith,
}
use xyz.CommandLine.{
  Clib, CryptoOptions, same_text, max_rx_queue_per_lcore, parse_cryptodev_mask, mask,
  l2fwd_crypto_parse_portmask, l2fwd_crypto_parse_nqueue, l2fwd_crypto_parse_timer_period,
  l2fwd_crypto_default_options, whole_number,
}
use xyz.CommandLine.Long.{
  Handler, update, handle, long_options, l2fwd_crypto_parse_args_long_options,
}

-- `long_option` is the case 0, `unknown` the default.
pub data Opt : Type 0 where
  long_option : (name arg : String) → Opt
  portmask : String → Opt
  nqueue : String → Opt
  single : Opt
  timer_period : String → Opt
  unknown : Opt

pub parse_opt : Clib → Opt → CryptoOptions → Option CryptoOptions
unfolding update l2fwd_crypto_parse_args_long_options
parse_opt c (long_option name arg) o = l2fwd_crypto_parse_args_long_options name c arg o
parse_opt c (portmask arg) o =
    update (l2fwd_crypto_parse_portmask c arg) (λ pm. record o { portmask = pm })
parse_opt c (nqueue arg) o =
    update (l2fwd_crypto_parse_nqueue c arg) (λ n. record o { nb_ports_per_lcore = n })
parse_opt c single o = some (record o { single_lcore = true })
parse_opt c (timer_period arg) o =
    some (record o { refresh_period = l2fwd_crypto_parse_timer_period c arg })
parse_opt c unknown o = none

and_then : Option CryptoOptions → (CryptoOptions → Option CryptoOptions) → Option CryptoOptions
and_then none f = none
and_then (some o) f = f o

pub parse_opts : Clib → List Opt → CryptoOptions → Option CryptoOptions
unfolding parse_opt and_then
parse_opts c [] o = some o
parse_opts c (x ∷ xs) o = and_then (parse_opt c x o) (λ o'. parse_opts c xs o')

pub l2fwd_crypto_parse_args :
    Clib → (aes_cbc sha1_hmac aes_gcm : ℕ) → List Opt → Option CryptoOptions
unfolding parse_opts
l2fwd_crypto_parse_args c aes_cbc sha1_hmac aes_gcm xs =
    parse_opts c xs (l2fwd_crypto_default_options c aes_cbc sha1_hmac aes_gcm)

-- What the set-up of ports and devices needs.
pub Usable : CryptoOptions → Type 0
Usable o =
    (0 < o.portmask)
    × (0 < o.nb_ports_per_lcore)
    × (o.nb_ports_per_lcore < max_rx_queue_per_lcore)
    × (0 < o.cryptodev_mask)

pub IfAny : (CryptoOptions → Type 0) → Option CryptoOptions → Type 0
IfAny Good none = Unit
IfAny Good (some o) = Good o

update-IfAny :
    {A : Type 0} (Good : CryptoOptions → Type 0) (x : Option A) (f : A → CryptoOptions)
    → ((a : A) → Good (f a))
    → IfAny Good (update x f)
unfolding update IfAny
update-IfAny Good none f all = tt
update-IfAny Good (some a) f all = all a

mask_positive :
    (c : Clib) (arg : String) (o : CryptoOptions)
    → Usable o
    → IfAny Usable (update (parse_cryptodev_mask c arg) (λ n. record o { cryptodev_mask = n }))
unfolding parse_cryptodev_mask update IfAny Usable
mask_positive c arg o (port, queue, few, dev) =
    let pm = mask (c.strtoul 16 arg) in
    elim (Bool-cases (pm == 0)) [
      | inl zero_mask ↦ rw zero_mask tt
      | inr some_mask ↦ rw some_mask (port, queue, few, ground (arith, some_mask))
    ]

-- Handlers keep options usable.
KeepsUsable : Handler → Type 0
KeepsUsable h = (c : Clib) (arg : String) (o : CryptoOptions) → Usable o → IfAny Usable (h c arg o)

AllKeep : List (String × Handler) → Type 0
AllKeep [] = Unit
AllKeep ((n, h) ∷ rest) = KeepsUsable h × AllKeep rest

handle-IfAny :
    (table : List (String × Handler)) (name : String)
    → AllKeep table
    → KeepsUsable (handle table name)
unfolding handle AllKeep KeepsUsable IfAny
handle-IfAny [] name all c arg o u = tt
handle-IfAny ((n, h) ∷ rest) name (k, all) c arg o u = elim (Bool-cases (same_text name n)) [
  | inl this ↦ rw this (k c arg o u)
  | inr other ↦ rw other (handle-IfAny rest name all c arg o u)
]

-- An update that leaves the fields of `Usable`.
keeps :
    {A : Type 0} (x : Option A) (f : A → CryptoOptions)
    → ((a : A) → Usable (f a))
    → IfAny Usable (update x f)
keeps x f all = update-IfAny Usable x f all

long_options_keep : AllKeep long_options
unfolding AllKeep KeepsUsable IfAny long_options Usable
long_options_keep = (
  λ c arg o u. keeps _ _ (λ a. u),
  (
    λ c arg o u. keeps _ _ (λ a. u),
    (
      λ c arg o u. keeps _ _ (λ a. u),
      (
        λ c arg o u. keeps _ _ (λ a. u),
        (
          λ c arg o u. keeps _ _ (λ a. u),
          (
            λ c arg o u. keeps _ _ (λ a. u),
            (
              λ c arg o u. keeps _ _ (λ a. u),
              (
                λ c arg o u. keeps _ _ (λ a. u),
                (
                  λ c arg o u. keeps _ _ (λ a. u),
                  (
                    λ c arg o u. keeps _ _ (λ a. u),
                    (
                      λ c arg o u. keeps _ _ (λ a. u),
                      (
                        λ c arg o u. keeps _ _ (λ a. u),
                        (
                          λ c arg o u. keeps _ _ (λ a. u),
                          (
                            λ c arg o u. keeps _ _ (λ a. u),
                            (
                              λ c arg o u. keeps _ _ (λ a. u),
                              (
                                λ c arg o u. keeps _ _ (λ a. u),
                                (
                                  λ c arg o u. keeps _ _ (λ a. u),
                                  (
                                    λ c arg o u. keeps _ _ (λ a. u),
                                    (
                                      λ c arg o u. keeps _ _ (λ a. u),
                                      (
                                        λ c arg o u. keeps _ _ (λ a. u),
                                        (
                                          λ c arg o u. keeps _ _ (λ a. u),
                                          (
                                            λ c arg o u. keeps _ _ (λ a. u),
                                            (
                                              λ c arg o u. keeps _ _ (λ a. u),
                                              (
                                                λ c arg o u. keeps _ _ (λ a. u),
                                                (
                                                  λ c arg o u. u,
                                                  (
                                                    λ c arg o u. mask_positive c arg o u,
                                                    (λ c arg o u. u, (λ c arg o u. u, tt)),
                                                  ),
                                                ),
                                              ),
                                            ),
                                          ),
                                        ),
                                      ),
                                    ),
                                  ),
                                ),
                              ),
                            ),
                          ),
                        ),
                      ),
                    ),
                  ),
                ),
              ),
            ),
          ),
        ),
      ),
    ),
  ),
)

portmask_positive :
    (c : Clib) (arg : String) (o : CryptoOptions)
    → Usable o
    → IfAny Usable (update (l2fwd_crypto_parse_portmask c arg) (λ pm. record o { portmask = pm }))
unfolding l2fwd_crypto_parse_portmask update IfAny Usable
portmask_positive c arg o (port, queue, few, dev) =
    let pm = mask (c.strtoul 16 arg) % 2 ^ 32 in
    elim (Bool-cases (pm == 0 || leb (2 ^ 31) pm)) [
      | inl bad ↦ rw bad tt
      | inr ok ↦ rw ok (ground (arith, ok), queue, few, dev)
    ]

nqueue_positive :
    (c : Clib) (arg : String) (o : CryptoOptions)
    → Usable o
    → IfAny Usable
        (update (l2fwd_crypto_parse_nqueue c arg) (λ n. record o { nb_ports_per_lcore = n }))
unfolding l2fwd_crypto_parse_nqueue update IfAny Usable
nqueue_positive c arg o (port, queue, few, dev) =
    let n = whole_number arg (c.strtoul 10 arg) in
    elim (Bool-cases (n == 0 || leb max_rx_queue_per_lcore n)) [
      | inl bad ↦ rw bad tt
      | inr ok ↦ rw ok (port, ground (arith, ok), ground (arith, ok), dev)
    ]

parse_opt_keeps :
    (c : Clib) (x : Opt) (o : CryptoOptions) → Usable o → IfAny Usable (parse_opt c x o)
unfolding parse_opt IfAny Usable KeepsUsable
parse_opt_keeps c (long_option name arg) o u =
    handle-IfAny long_options name long_options_keep c arg o u
parse_opt_keeps c (portmask arg) o u = portmask_positive c arg o u
parse_opt_keeps c (nqueue arg) o u = nqueue_positive c arg o u
parse_opt_keeps c single o u = u
parse_opt_keeps c (timer_period arg) o u = u
parse_opt_keeps c unknown o u = tt

and_then_keeps :
    (x : Option CryptoOptions) (f : CryptoOptions → Option CryptoOptions)
    → IfAny Usable x
    → ((o : CryptoOptions) → Usable o → IfAny Usable (f o))
    → IfAny Usable (and_then x f)
unfolding and_then IfAny
and_then_keeps none f u all = tt
and_then_keeps (some o) f u all = all o u

parse_opts_keeps :
    (c : Clib) (xs : List Opt) (o : CryptoOptions) → Usable o → IfAny Usable (parse_opts c xs o)
unfolding parse_opts IfAny
parse_opts_keeps c [] o u = u
parse_opts_keeps c (x ∷ xs) o u =
    and_then_keeps (parse_opt c x o) (λ o'. parse_opts c xs o') (parse_opt_keeps c x o u)
      (λ o' u'. parse_opts_keeps c xs o' u')

-- Whatever options are given, in whatever order and however often: if the command line is accepted, there
-- is a port and a crypto device in the masks, and a lcore has between one and fifteen ports.
pub parse_args-Usable :
    (c : Clib) (aes_cbc sha1_hmac aes_gcm : ℕ) (xs : List Opt)
    → IfAny Usable (l2fwd_crypto_parse_args c aes_cbc sha1_hmac aes_gcm xs)
unfolding l2fwd_crypto_parse_args l2fwd_crypto_default_options Usable
parse_args-Usable c aes_cbc sha1_hmac aes_gcm xs =
    let start = l2fwd_crypto_default_options c aes_cbc sha1_hmac aes_gcm in
    parse_opts_keeps c xs start (omega arith, omega arith, omega arith, omega arith)
