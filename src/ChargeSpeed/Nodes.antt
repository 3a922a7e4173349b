-- ===== src/ChargeSpeed/Nodes.antt =====
-- chargespeed/: which of the nodes the calls use.
use android_device_realme_sa.Base.{
  Bool, Bool-cases, List, Option, Option-cases, [], ap, arith, false, inl, inr, none, refl, some,
  suc, sym, true, zero, ℕ, ◌&&◌, ◌∙◌, ◌∷◌, ◌≡◌,
}
use android_device_realme_sa.Base.Int.{pos_part, ℤ}
use android_device_realme_sa.ChargeSpeed.CoolDown.{
  Action, Device, Node, boot_completed, choose_level, contents_at, first_index, get_cool_down_path,
  is_supported, load_saved, locked_boot_completed, on_receive, or_else, other_action,
  power_connected, put_text, restore, save_and_apply, to_decimal, write_at, write_cool_down,
}
use android_device_realme_sa.ChargeSpeed.Histories.{choice}

-- No node appears, disappears or changes its rights.
first_index-put_text :
    (p : Node → Bool)
    → ((n : Node) (text : List ℕ) → p (record n { contents = text }) ≡ p n)
    → (i : ℕ) (text : List ℕ) (ns : List Node)
    → first_index p (put_text i text ns) ≡ first_index p ns
first_index-put_text p h i text [] = refl
first_index-put_text p h zero text (n ∷ ns) = rw (h n text) refl
first_index-put_text p h (suc i) text (n ∷ ns) = rw (first_index-put_text p h i text ns) refl

first_index-suc :
    (p : Node → Bool) (i : ℕ) (n : Node) (ns : List Node)
    → first_index p (n ∷ ns) ≡ some (suc i)
    → first_index p ns ≡ some i
first_index-suc p i n ns e = ground (arith, Option-cases (first_index p ns))

contents_at-put_text :
    (p : Node → Bool) (i : ℕ) (text : List ℕ) (ns : List Node)
    → first_index p ns ≡ some i
    → contents_at i (put_text i text ns) ≡ text
contents_at-put_text p i text [] e = cc
contents_at-put_text p zero text (n ∷ ns) e = refl
contents_at-put_text p (suc i) text (n ∷ ns) e =
    contents_at-put_text p i text ns (first_index-suc p i n ns e)

pub path-put_text :
    (d : Device) (i : ℕ) (text : List ℕ)
    → get_cool_down_path (record d { nodes = put_text i text d.nodes }) ≡ get_cool_down_path d
unfolding get_cool_down_path
path-put_text d i text = λ j.
    or_else (first_index-put_text (λ n. n.exists && n.can_write) (λ n t. refl) i text d.nodes j)
      (first_index-put_text (λ n. n.exists) (λ n t. refl) i text d.nodes j)

pub contents_at-path :
    (d : Device) (i : ℕ) (text : List ℕ)
    → get_cool_down_path d ≡ some i
    → contents_at i (put_text i text d.nodes) ≡ text
unfolding get_cool_down_path
contents_at-path d i text e = by_first _ refl
  where
    by_first :
        (o : Option ℕ)
        → first_index (λ n. n.exists && n.can_write) d.nodes ≡ o
        → contents_at i (put_text i text d.nodes) ≡ text
    by_first none f =
        contents_at-put_text (λ n. n.exists) i text d.nodes
          (sym (ap (λ o. or_else o (first_index (λ n. n.exists) d.nodes)) f) ∙ e)
    by_first (some k) f =
        contents_at-put_text (λ n. n.exists && n.can_write) i text d.nodes
          (f ∙ sym (ap (λ o. or_else o (first_index (λ n. n.exists) d.nodes)) f) ∙ e)

write_at-path :
    (o : Option ℕ) (w : Bool) (level : ℤ) (d : Device)
    → (get_cool_down_path (write_at o w level d).1 ≡ get_cool_down_path d)
      × ((write_at o w level d).1.saved ≡ d.saved)
unfolding write_at
write_at-path none w level d = (refl, refl)
write_at-path (some i) false level d = (refl, refl)
write_at-path (some i) true level d = (path-put_text d i (to_decimal 10 (pos_part level)), refl)

restore-path :
    (w : Bool) (d : Device)
    → (get_cool_down_path (restore w d) ≡ get_cool_down_path d) × ((restore w d).saved ≡ d.saved)
unfolding restore write_cool_down
restore-path w d = elim (Bool-cases (is_supported d)) [
  | inl e ↦ rw e (write_at-path (get_cool_down_path d) w (load_saved d) d)
  | inr e ↦ rw e (refl, refl)
]

pub on_receive-path :
    (w : Bool) (a : Option Action) (d : Device)
    → (get_cool_down_path (on_receive w a d) ≡ get_cool_down_path d)
      × ((on_receive w a d).saved ≡ d.saved)
unfolding on_receive
on_receive-path w none d = (refl, refl)
on_receive-path w (some boot_completed) d = restore-path w d
on_receive-path w (some locked_boot_completed) d = restore-path w d
on_receive-path w (some power_connected) d = restore-path w d
on_receive-path w (some other_action) d = (refl, refl)

pub choose_level-path :
    (w : Bool) (o : Option ℤ) (d : Device)
    → (get_cool_down_path (choose_level w o d).1 ≡ get_cool_down_path d)
      × ((choose_level w o d).1.saved ≡ choice o d.saved)
unfolding choose_level save_and_apply write_cool_down get_cool_down_path
choose_level-path w none d = (refl, refl)
choose_level-path w (some level) d =
    let d' : Device = record d { saved = some level } in
    write_at-path (get_cool_down_path d') w level d'
