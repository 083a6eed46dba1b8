-- ===== src/Config/Startup.antt =====
-- server/configure.go: the log level and the message of the day that `Configure` settles once all
-- values have been read.
use nvda_remote_go.Prelude.{
  Bytes, Bool, true, false, [], ◌++◌, codes, ℤ, pos, negsuc, not, ◌&&◌, ◌≡◌, refl, is_empty,
  has_prefix, has_prefix-append, append-nil, ap, sym, ◌∙◌, if◌then◌else◌, arith, Bool-cases, inl,
  inr, ◌∷◌,
}
use nvda_remote_go.Config.Values.{is_pos}
use nvda_remote_go.Config.Relays.{less}

pub record Startup : Type 0 where
  pub log_level : ℤ
  pub motd : Bytes
  pub motd_always_display : Bool

abbrev pub log_silent : ℤ
log_silent = negsuc 0

abbrev pub log_protocol : ℤ
log_protocol = pos 4

abbrev pub protocol_log_motd : Bytes
protocol_log_motd =
    codes "WARNING!"
    ++ 10
      ∷ codes
          "All server information is being logged, including the protocol being used. This server is running in an insecure mode for production."

unfoldable pub clamp_log_level : ℤ → ℤ
clamp_log_level level =
    let raised = if less level log_silent then log_silent else level in
    if less log_protocol raised then log_protocol else raised

abbrev warn_by : Bytes → Startup → Startup
warn_by warning s =
    if is_pos 4 s.log_level
    then record s {
      motd = if is_empty s.motd then warning else warning ++ 10 ∷ s.motd;
      motd_always_display = true;
    }
    else s

unfoldable pub warn_of_protocol_log : Startup → Startup
warn_of_protocol_log s = warn_by protocol_log_motd s

unfoldable pub drop_empty_display : Startup → Startup
drop_empty_display s =
    if is_empty s.motd && s.motd_always_display then record s { motd_always_display = false } else s

unfoldable pub settle : Startup → Startup
unfolding clamp_log_level warn_of_protocol_log drop_empty_display
settle s =
    drop_empty_display (warn_of_protocol_log (record s { log_level = clamp_log_level s.log_level }))

level_range :
    (z : ℤ)
    → (less (clamp_log_level z) log_silent ≡ false)
      × (less log_protocol (clamp_log_level z) ≡ false)
unfolding clamp_log_level
level_range (pos n) = ground arith
level_range (negsuc n) = ground arith

has_prefix_refl : (s : Bytes) → has_prefix s s ≡ true
has_prefix_refl s = ap (has_prefix s) (sym (append-nil s)) ∙ has_prefix-append s []

-- What is settled of a message of the day, whatever the warning is.
warned :
    (w : Bytes) (s : Startup)
    → is_empty w ≡ false
    → ((drop_empty_display (warn_by w s)).log_level ≡ s.log_level)
      × ((is_empty (drop_empty_display (warn_by w s)).motd
            && (drop_empty_display (warn_by w s)).motd_always_display)
          ≡ false)
      × ((is_pos 4 s.log_level
            && not (
                has_prefix w (drop_empty_display (warn_by w s)).motd
                && (drop_empty_display (warn_by w s)).motd_always_display))
          ≡ false)
unfolding drop_empty_display
warned w s h = elim (Bool-cases (is_pos 4 s.log_level)) [
  | inl protocol ↦ elim (Bool-cases (is_empty s.motd)) [
    | inl empty ↦ rw (protocol, empty) (ground (arith, has_prefix_refl w, h))
    | inr some_motd ↦
        rw (protocol, some_motd) (ground (arith, has_prefix-append w (10 ∷ s.motd), h))
  ]
  | inr quiet ↦ ground (arith, quiet)
]

-- Once settled, the log level is one of those there are, the message of the day is displayed always
-- only if there is one, and while the protocol is logged it starts with the warning and is displayed
-- always.
pub settle_lem :
    (s : Startup)
    → (less (settle s).log_level log_silent ≡ false)
      × (less log_protocol (settle s).log_level ≡ false)
      × ((is_empty (settle s).motd && (settle s).motd_always_display) ≡ false)
      × ((is_pos 4 (settle s).log_level
            && not (has_prefix protocol_log_motd (settle s).motd && (settle s).motd_always_display))
          ≡ false)
unfolding settle
settle_lem s =
    let level = clamp_log_level s.log_level in
    let range = level_range s.log_level in
    let r = warned protocol_log_motd (record s { log_level = level }) refl in
    (rw r.0 range.0, rw r.0 range.1, r.1, rw r.0 r.2)
