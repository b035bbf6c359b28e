-- ===== src/Rtl/SpillCell/Queue.antt =====
-- A spill cell is a queue of two items.
use len5_core.Common.{
  ◌≤◌, ◌<◌, ◌≡◌, refl, sym, ap, ◌∙◌, Bool, not, List, [], ◌∷◌, ◌++◌, if◌then◌else◌, length, get_or,
}
use len5_core.Rtl.Handshake.Flow.{Undisturbed, accepted-delivered}
use len5_core.Rtl.Handshake.{
  accepted, delivered, final, Inputs, Refines, is_empty, after, pushes, pops,
}
use mathlib.Core.Path.{subst}
use len5_core.Rtl.SpillCell.{
  Variant, sees_flush, CellRegs, cell_data, cell_buff_full, cell_buff_data, spill_cell,
}
use len5_core.Rtl.SpillCell.Contents.{
  cell_contents, sees_flush-false, cell_contents-edge, cell_contents-bound, cell_contents-ready,
  cell_contents-valid, cell_contents-data,
}

module _ {A : Type 0} (variant : Variant) where
  unfoldable pub cell_queue : (zeros : A) → Refines (spill_cell variant zeros)
  cell_queue zeros = record {
    capacity = 2;
    Represents = λ c q. cell_contents c ≡ q;
    represents_reset = refl;
    represents_bound =
        λ c q h. subst (λ (t : List A). length t ≤ 2) h (cell_contents-bound variant c);
    represents_ready =
        λ c q f h e. subst (λ (t : List A). length t < 2) h (cell_contents-ready variant c f e);
    represents_valid =
        λ c q h. cell_contents-valid variant c ∙ ap (λ (t : List A). not (is_empty t)) h;
    represents_data = λ c x q h. shown c x q h;
    represents_edge = λ c q i h u.
        let out = pops (spill_cell variant zeros) c i in
        let into = pushes (spill_cell variant zeros) c i in
        cell_contents-edge variant zeros c i
        ∙ ap (λ (f : Bool). if f then [] else after out into i.data_i (cell_contents c))
            (ap (sees_flush variant) u ∙ sees_flush-false variant)
        ∙ ap (λ (t : List A). after out into i.data_i t) h;
  }
    where
      shown :
          (c : CellRegs A) (x : A) (q : List A) → cell_contents c ≡ x ∷ q → cell_data variant c ≡ x
      shown c x q h =
          let valid = cell_contents-valid variant c ∙ ap (λ (t : List A). not (is_empty t)) h in
          let behind = if cell_buff_full variant c then cell_buff_data variant c ∷ [] else [] in
          ap (λ (t : List A). get_or t 0 x)
            (ap (λ (b : Bool). (if b then cell_data variant c ∷ [] else []) ++ behind) (sym valid)
              ∙ cell_contents-data variant c
              ∙ h)

-- Out of reset, while nothing is sees_flush, a cell hands over what it accepted, in order and once; what
-- it has accepted and not handed over is what it holds, two items at most.
pub spill_cell-in_order :
    {A : Type 0} (variant : Variant) (zeros : A) (is : List (Inputs A))
    → Undisturbed is
    → let cell = spill_cell variant zeros in
      (accepted cell cell.reset is
        ≡ delivered cell cell.reset is ++ cell_contents (final cell cell.reset is))
      × (length (cell_contents (final cell cell.reset is)) ≤ 2)
unfolding cell_queue
spill_cell-in_order variant zeros is u =
    let cell = spill_cell variant zeros in
    let (q, held, flow) =
      accepted-delivered cell (cell_queue variant zeros) cell.reset [] is refl u in
    (
      flow ∙ ap (λ t. delivered cell cell.reset is ++ t) (sym held),
      cell_contents-bound variant (final cell cell.reset is),
    )
