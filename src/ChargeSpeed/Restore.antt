-- ===== src/ChargeSpeed/Restore.antt =====
-- chargespeed/: the level in force after a broadcast.
use android_device_realme_sa.Base.{
  Bool, Bool-cases, List, Option, Option-cases, [], ap, arith, false, get_or_else, if◌then◌else◌,
  inl, inr, is_some, leb, ltb, refl, some, subst, sym, true, ℕ, ◌&&◌, ◌<◌, ◌==◌, ◌||◌, ◌∙◌, ◌∷◌,
  ◌≡◌,
}
use android_device_realme_sa.Base.Int.{neg_part, pos, pos_part, sub_ℕ, ℤ}
use android_device_realme_sa.ChargeSpeed.CoolDown.{
  Action, Device, boot_completed, first_line, get_cool_down_path, in_range, is_supported,
  load_saved, locked_boot_completed, on_preference_change, on_receive, other_action, parse_int,
  parse_line, parse_unsigned, power_connected, put_text, read_at, read_cool_down, restore,
  to_decimal, write_at, write_cool_down,
}
use android_device_realme_sa.ChargeSpeed.Decimal.{parse_line-to_decimal}
use android_device_realme_sa.ChargeSpeed.Histories.{
  Event, broadcast, choice, chooses, kernel_writes, last_choice, run,
}
use android_device_realme_sa.ChargeSpeed.Nodes.{
  choose_level-path, contents_at-path, on_receive-path, path-put_text,
}

run-path :
    (es : List Event) (d : Device)
    → (get_cool_down_path (run es d) ≡ get_cool_down_path d)
      × ((run es d).saved ≡ last_choice es d.saved)
unfolding run last_choice
run-path [] d = (refl, refl)
run-path (chooses w t ∷ es) d =
    let e = (on_preference_change w t d).1 in
    let (path, saved) = run-path es e in
    let (path', saved') = choose_level-path w (parse_int t) d in
    unfold on_preference_change in (path ∙ path', saved ∙ ap (last_choice es) saved')
run-path (broadcast w a ∷ es) d =
    let (path, saved) = run-path es (on_receive w a d) in
    let (path', saved') = on_receive-path w a d in
    (path ∙ path', saved ∙ ap (last_choice es) saved')
run-path (kernel_writes i t ∷ es) d =
    let (path, saved) = run-path es (record d { nodes = put_text i t d.nodes }) in
    (path ∙ path-put_text d i t, saved)

-- A level that an int holds.
abbrev pub IsLevel : Option ℤ → Type 0
IsLevel o = pos_part (get_or_else o (pos 0)) < 2147483648

in_range-IsLevel : (v : ℤ) (old : Option ℤ) → IsLevel old → IsLevel (choice (in_range v) old)
in_range-IsLevel v old k =
    elim (Bool-cases (ltb (pos_part v) 2147483648 && leb (neg_part v) 2147483648)) [
      | inl e ↦ rw e (ground arith)
      | inr e ↦ rw e k
    ]

parse_int-IsLevel :
    (cs : List ℕ) (old : Option ℤ) → IsLevel old → IsLevel (choice (parse_int cs) old)
unfolding parse_int
parse_int-IsLevel [] old k = k
parse_int-IsLevel (c ∷ cs) old k =
    elim (Option-cases (parse_unsigned (if (c == 45) || (c == 43) then cs else c ∷ cs))) [
      | inl e ↦ rw (e, parse_int) k
      | inr (n, e) ↦
          rw (e, parse_int) (in_range-IsLevel (if c == 45 then sub_ℕ 0 n else pos n) old k)
    ]

last_choice-IsLevel :
    (es : List Event) (old : Option ℤ) → IsLevel old → IsLevel (last_choice es old)
unfolding last_choice
last_choice-IsLevel [] old k = k
last_choice-IsLevel (chooses w t ∷ es) old k =
    last_choice-IsLevel es (choice (parse_int t) old) (parse_int-IsLevel t old k)
last_choice-IsLevel (broadcast w a ∷ es) old k = last_choice-IsLevel es old k
last_choice-IsLevel (kernel_writes i t ∷ es) old k = last_choice-IsLevel es old k

-- A level that was written is read back.
read-write :
    (d : Device) (i : ℕ) (level : ℤ)
    → get_cool_down_path d ≡ some i
    → pos_part level < 2147483648
    → read_cool_down true (write_cool_down true level d).1 ≡ pos (pos_part level)
unfolding read_cool_down write_cool_down read_at write_at
read-write d i level e small =
    let digits = to_decimal 10 (pos_part level) in
    let v : Device = record d { nodes = put_text i digits d.nodes } in
    ap (λ o. let w = (write_at o true level d).1 in read_at (get_cool_down_path w) true w) e
    ∙ ap (λ o. read_at o true v) (path-put_text d i digits ∙ e)
    ∙ ap (λ text. parse_line (first_line text)) (contents_at-path d i digits e)
    ∙ parse_line-to_decimal (pos_part level) small

restore-reads :
    (d : Device)
    → is_supported d ≡ true
    → IsLevel d.saved
    → read_cool_down true (restore true d) ≡ pos (pos_part (load_saved d))
unfolding restore is_supported
restore-reads d supported small = elim (Option-cases (get_cool_down_path d)) [
  | inl e ↦ absurd (ground (arith, ap is_some e))
  | inr (i, e) ↦ rw supported (read-write d i (load_saved d) e small)
]

-- The actions at which the receiver acts.
abbrev pub restores : Action → Bool
restores other_action = false
restores _ = true

-- After any history of choices, broadcasts and writes of the kernel to the nodes: a boot or a plugged
-- charger brings the user's last choice back, that is, the node that the setting uses then reads as
-- the last choice that was a number (before the first one, the saved setting, which is below 2^31), or as
-- 0 if that is negative, if the write and the read succeed.
pub restored :
    (es : List Event) (a : Action) (d : Device)
    → restores a ≡ true
    → is_supported d ≡ true
    → IsLevel d.saved
    → read_cool_down true (on_receive true (some a) (run es d))
      ≡ pos (pos_part (get_or_else (last_choice es d.saved) (pos 0)))
unfolding on_receive is_supported
restored es a d acts supported small =
    let (path, saved) = run-path es d in
    let there : is_supported (run es d) ≡ true = ap is_some path ∙ supported in
    let level : IsLevel (run es d).saved =
      subst IsLevel (sym saved) (last_choice-IsLevel es d.saved small) in
    let reads =
      restore-reads (run es d) there level
      ∙ ap (λ o. pos (pos_part (get_or_else o (pos 0)))) saved in
    by_action a acts reads
  where
    by_action :
        (b : Action)
        → restores b ≡ true
        → read_cool_down true (restore true (run es d))
          ≡ pos (pos_part (get_or_else (last_choice es d.saved) (pos 0)))
        → read_cool_down true (on_receive true (some b) (run es d))
          ≡ pos (pos_part (get_or_else (last_choice es d.saved) (pos 0)))
    by_action boot_completed e r = r
    by_action locked_boot_completed e r = r
    by_action power_connected e r = r
    by_action other_action e r = cc
