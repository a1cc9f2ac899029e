-- ===== src/Sender/Growth.antt =====
-- The ring's history grows while a connection lasts: what has been said of it stays.
use mathlib.Core.List.{List, [], ◌∷◌, ◌++◌, append-nil, append_assoc}
use rtkdata_fw.Base.{ℕ, ◌≤◌, ◌≡◌, refl, ap, sym, ◌∙◌, arith, length, length-append}
use rtkdata_fw.Base.{get_or-append_left, take-append_left}
use rtkdata_fw.Ring.History.{History, total, entry, nothing}
use rtkdata_fw.Sender.{Tx}
use rtkdata_fw.Sender.Balance.{IsBalanced}
use rtkdata_fw.Sender.Wire.{Ordered, carried}

pub record Grown (h h' : History) : Type 0 where
  pub more : History
  pub longer : h' ≡ h ++ more

pub Grown-refl : (h : History) → Grown h h
Grown-refl h = record { more = []; longer = sym (append-nil h) }

pub Grown-trans : (h h' h'' : History) → Grown h h' → Grown h' h'' → Grown h h''
Grown-trans h h' h'' g k = record {
  more = g.more ++ k.more;
  longer = k.longer ∙ ap (λ (l : History). l ++ k.more) g.longer ∙ append_assoc h g.more k.more;
}

Grown-length : (h h' : History) → Grown h h' → length h ≤ length h'
Grown-length h h' g = omega (arith, ap length g.longer, length-append h g.more)

pub IsBalanced-Grown : (tx : Tx) (h h' : History) → Grown h h' → IsBalanced tx h → IsBalanced tx h'
IsBalanced-Grown tx h h' g b =
    let same = ap total (sym (take-append_left tx.cursor_seq h g.more b.behind)) in
    let longer = Grown-length h h' g in
    record {
      off_le = b.off_le;
      len_le = b.len_le;
      len_small = b.len_small;
      behind = omega (arith, b.behind, longer);
      at_cursor = rw (g.longer) (b.at_cursor ∙ same);
      consumed = b.consumed;
      copies = b.copies;
    }

pub carried-Grown :
    (h h' : History) (c : ℕ) (is : List ℕ)
    → Grown h h'
    → Ordered c is
    → c ≤ length h
    → carried h' is ≡ carried h is
carried-Grown h h' c [] g o k = refl
carried-Grown h h' c (i ∷ is) g o k =
    let before = carried-Grown h h' i is g o.1 (omega (arith, o.0, k)) in
    let same : entry h' i ≡ entry h i =
      ap (λ (l : History). entry l i) g.longer
      ∙ get_or-append_left h g.more i nothing (omega (arith, o.0, k)) in
    rw before (rw same refl)
