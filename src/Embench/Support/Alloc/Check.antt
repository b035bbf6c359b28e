-- ===== src/Embench/Support/Alloc/Check.antt =====
-- `check_heap_beebs` of beebsc.c: whether an allocation ever failed.
use len5_core.Common.{◌≡◌, ◌≢◌, ◌⊎◌, none, List, [], ◌∷◌}
use len5_core.Device.Memory.{Memory}
use len5_core.Embench.Support.{BeebsHeap, Call, call}
use len5_core.Embench.Support.Alloc.{requested}

-- Every call that requested bytes returned a block.
abbrev pub Served : List Call → BeebsHeap → Memory → Type 0
Served [] h m = Unit
Served (c ∷ cs) h m =
    ((requested c ≡ 0) ⊎ ((call c h m).0 ≢ none)) × Served cs (call c h m).1 (call c h m).2
