-- ===== src/Node/ReadAheadLaws.antt =====
-- `updateReadAhead` of pkg/nfs/nodeserver.go: the number that it writes is the number that it reads.
use google_cloud_platform_nf.Prelude.{
  ℕ, zero, suc, ◌+◌, ◌-◌, ◌*◌, ◌/◌, ◌%◌, ◌^◌, ◌<◌, ◌≡◌, ap, ◌∙◌, refl, [], ◌∷◌, ◌++◌, Bool, true,
  false, ◌&&◌, some, ltb, leb, if◌then◌else◌, ◌==◌, arith, Bool-cases, inl, inr,
}
use google_cloud_platform_nf.Text.{Bytes, is_empty}
use google_cloud_platform_nf.Text.Numerals.{value_from, parse_uint, parse_int, pos, below_cutoff}
use google_cloud_platform_nf.Rpc.{internal, done, failed, require, continue, ◌>>=◌}
use google_cloud_platform_nf.Locks.{StringSet}
use google_cloud_platform_nf.Host.{Host}
use google_cloud_platform_nf.Node.{
  Handler, World, echo_command, cat_command, decimal_digits, decimal, trim_space_left,
  trim_space_right, trim_space, reads_as,
}
use google_cloud_platform_nf.Node.Publish.{shell, device_of, update_read_ahead}

abbrev all_digits : Bytes → Bool
all_digits [] = true
all_digits (c ∷ s) = leb b'0' c && ltb c (b'0' + 10) && all_digits s

value_from-digit :
    (n : ℕ) (out : Bytes) → value_from 10 (n / 10) ((b'0' + n % 10) ∷ out) ≡ value_from 10 n out
unfolding value_from
value_from-digit n out =
    let digit : ltb (b'0' + n % 10) (b'0' + 10) ≡ true = ground arith in
    let above : leb b'0' (b'0' + n % 10) ≡ true = ground arith in
    let same : n / 10 * 10 + (b'0' + n % 10 - b'0') ≡ n = omega arith in
    rw (digit, above, same) refl

value_from-decimal_digits :
    (fuel n : ℕ) (out : Bytes)
    → n < 10 ^ fuel
    → value_from 10 0 (decimal_digits fuel n out) ≡ value_from 10 n out
unfolding decimal_digits
value_from-decimal_digits zero n out h = let none_left : n ≡ 0 = omega arith in rw none_left refl
value_from-decimal_digits (suc fuel) n out h = elim (Bool-cases (n == 0)) [
  | inl none_left ↦ let z : n ≡ 0 = ground arith in rw (none_left, z) refl
  | inr more ↦
      rw (more, value_from-decimal_digits fuel (n / 10) ((b'0' + n % 10) ∷ out) (omega arith))
        (value_from-digit n out)
]

all_digits-decimal_digits :
    (fuel n : ℕ) (out : Bytes)
    → all_digits out ≡ true
    → all_digits (decimal_digits fuel n out) ≡ true
unfolding decimal_digits
all_digits-decimal_digits zero n out h = h
all_digits-decimal_digits (suc fuel) n out h =
    ground (arith, all_digits-decimal_digits fuel (n / 10) ((b'0' + n % 10) ∷ out))

decimal_lem : (n : ℕ) → decimal n ≡ (if n == 0 then b'0' ∷ [] else decimal_digits 19 n [])
unfolding decimal
decimal_lem n = refl

value_from-decimal : (n : ℕ) → n < 2 ^ 63 → value_from 10 0 (decimal n) ≡ some n
value_from-decimal n h = elim (Bool-cases (n == 0)) [
  | inl z ↦ let e : n ≡ 0 = ground arith in rw (decimal_lem n, z, e) (unfold value_from in refl)
  | inr more ↦
      rw (decimal_lem n, more, value_from-decimal_digits 19 n [] (omega arith))
        (unfold value_from in refl)
]

all_digits-decimal : (n : ℕ) → all_digits (decimal n) ≡ true
unfolding decimal
all_digits-decimal n = ground (arith, all_digits-decimal_digits 19 n [])

parse_int-all_digits :
    (s : Bytes) (n : ℕ)
    → all_digits s ≡ true
    → is_empty s ≡ false
    → value_from 10 0 s ≡ some n
    → n < 2 ^ 63
    → parse_int s ≡ some (pos n)
unfolding parse_int parse_uint below_cutoff
parse_int-all_digits [] n digits full e h = absurd (cc)
parse_int-all_digits (c ∷ s) n digits full e h =
    let no_minus : (c == b'-') ≡ false = ground arith in
    let no_plus : (c == b'+') ≡ false = ground arith in
    let small : ltb n (2 ^ 64) ≡ true = ground arith in
    let fits : ltb n (2 ^ 63) ≡ true = ground arith in
    rw (no_minus, no_plus, parse_int, parse_uint, e, small, fits) refl

is_empty-decimal_digits :
    (fuel n : ℕ) (out : Bytes) → is_empty out ≡ false → is_empty (decimal_digits fuel n out) ≡ false
unfolding decimal_digits
is_empty-decimal_digits zero n out h = h
is_empty-decimal_digits (suc fuel) n out h =
    ground (arith, is_empty-decimal_digits fuel (n / 10) ((b'0' + n % 10) ∷ out))

is_empty-decimal_digits-suc :
    (fuel n : ℕ) → (n == 0) ≡ false → is_empty (decimal_digits (suc fuel) n []) ≡ false
unfolding decimal_digits
is_empty-decimal_digits-suc fuel n more =
    rw more (is_empty-decimal_digits fuel (n / 10) ((b'0' + n % 10) ∷ []) refl)

is_empty-decimal : (n : ℕ) → is_empty (decimal n) ≡ false
is_empty-decimal n = elim (Bool-cases (n == 0)) [
  | inl z ↦ rw (decimal_lem n, z) refl
  | inr more ↦ rw (decimal_lem n, more) (is_empty-decimal_digits-suc 18 n more)
]

parse_int-decimal : (n : ℕ) → n < 2 ^ 63 → parse_int (decimal n) ≡ some (pos n)
parse_int-decimal n h =
    parse_int-all_digits (decimal n) n (all_digits-decimal n) (is_empty-decimal n)
      (value_from-decimal n h) h

trim_space_left-all_digits :
    (s t : Bytes) → all_digits s ≡ true → is_empty s ≡ false → trim_space_left (s ++ t) ≡ s ++ t
unfolding trim_space_left
trim_space_left-all_digits [] t digits full = absurd (cc)
trim_space_left-all_digits (c ∷ s) t digits full = ground arith

trim_space_right-all_digits :
    (s : Bytes) → all_digits s ≡ true → trim_space_right (s ++ b'\n' ∷ []) ≡ s
unfolding trim_space_right
trim_space_right-all_digits [] digits = refl
trim_space_right-all_digits (c ∷ s) digits = ground (arith, trim_space_right-all_digits s)

trim_space-decimal : (n : ℕ) → trim_space (decimal n ++ b'\n' ∷ []) ≡ decimal n
unfolding trim_space
trim_space-decimal n =
    rw
      (trim_space_left-all_digits (decimal n) (b'\n' ∷ []) (all_digits-decimal n)
        (is_empty-decimal n))
      (trim_space_right-all_digits (decimal n) (all_digits-decimal n))

reads_as-decimal :
    (n m : ℕ)
    → m < 2 ^ 63
    → reads_as (parse_int (trim_space (decimal m ++ b'\n' ∷ []))) n ≡ (m == n)
unfolding reads_as
reads_as-decimal n m h = rw (trim_space-decimal m, parse_int-decimal m h) refl

module _ (host : Host) (sets : StringSet) where
  device_of-some :
      (t output : Bytes) (w : World host sets)
      → host.mountpoint_device w.host_state t ≡ some output
      → device_of host sets t w ≡ (w, done (trim_space output))
  unfolding device_of
  device_of-some t output w e = rw (e, device_of) refl

  shell_some :
      (command output : Bytes) (w : World host sets) (h : host.State)
      → host.shell w.host_state command ≡ (h, some output)
      → shell host sets command w ≡ (record w { host_state = h }, done output)
  unfolding shell
  shell_some command output w h e = rw e refl

  -- The number is compared with what the second command prints.
  update_read_ahead-require :
      (t output echoed printed : Bytes) (kb : ℕ) (w : World host sets) (h h' : host.State)
      → host.mountpoint_device w.host_state t ≡ some output
      → host.shell w.host_state (echo_command kb (trim_space output)) ≡ (h, some echoed)
      → host.shell h (cat_command (trim_space output)) ≡ (h', some printed)
      → update_read_ahead host sets t kb w
        ≡ require
            (reads_as (parse_int (trim_space printed)) kb)
            internal
            (record w { host_state = h' })
  unfolding update_read_ahead
  update_read_ahead-require t output echoed printed kb w h h' device wrote read =
      let first = shell_some (echo_command kb (trim_space output)) echoed w h wrote in
      let second =
        shell_some (cat_command (trim_space output)) printed (record w { host_state = h }) h'
          read in
      let check : Bytes → Handler host sets (Unit {0}) =
        λ o. require (reads_as (parse_int (trim_space o)) kb) internal in
      let read_back : Bytes → Handler host sets (Unit {0}) =
        λ device. shell host sets (cat_command device) >>= check in
      let write : Bytes → Handler host sets (Unit {0}) =
        λ device. shell host sets (echo_command kb device) >>= (λ ignored. read_back device) in
      ap (λ r. continue r write) (device_of-some t output w device)
      ∙ ap (λ r. continue r (λ ignored. read_back (trim_space output))) first
      ∙ ap (λ r. continue r check) second

  -- `updateReadAhead` succeeds with a number below 2 ^ 63 if the mount point has a device, the shell
  -- runs both commands, and the second prints that number in decimal and a line feed.
  pub update_read_ahead-done :
      (t output echoed : Bytes) (kb : ℕ) (w : World host sets) (h h' : host.State)
      → kb < 2 ^ 63
      → host.mountpoint_device w.host_state t ≡ some output
      → host.shell w.host_state (echo_command kb (trim_space output)) ≡ (h, some echoed)
      → host.shell h (cat_command (trim_space output)) ≡ (h', some (decimal kb ++ b'\n' ∷ []))
      → update_read_ahead host sets t kb w ≡ (record w { host_state = h' }, done tt)
  update_read_ahead-done t output echoed kb w h h' small device wrote read =
      let self : (kb == kb) ≡ true = ground arith in
      rw
        (
          update_read_ahead-require t output echoed (decimal kb ++ b'\n' ∷ []) kb w h h' device
              wrote read,
          reads_as-decimal kb kb small,
          self,
        )
        refl

  -- `updateReadAhead` fails where what it reads back is the decimal of another number.
  pub update_read_ahead-failed :
      (t output echoed : Bytes) (kb other : ℕ) (w : World host sets) (h h' : host.State)
      → other < 2 ^ 63
      → (other == kb) ≡ false
      → host.mountpoint_device w.host_state t ≡ some output
      → host.shell w.host_state (echo_command kb (trim_space output)) ≡ (h, some echoed)
      → host.shell h (cat_command (trim_space output)) ≡ (h', some (decimal other ++ b'\n' ∷ []))
      → update_read_ahead host sets t kb w ≡ (record w { host_state = h' }, failed internal)
  update_read_ahead-failed t output echoed kb other w h h' small differs device wrote read =
      rw
        (
          update_read_ahead-require t output echoed (decimal other ++ b'\n' ∷ []) kb w h h' device
              wrote read,
          reads_as-decimal kb other small,
          differs,
        )
        refl
