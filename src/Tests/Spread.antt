-- ===== src/Tests/Spread.antt =====
-- The threads of PCB/SinglePMultipleC.cpp, with three consumers.
use node2x6x2b.Base.{arith}
use node2x6x2b.Spread.{Spread, Reach}
use node2x6x2b.Spread.Overtaken.{HasTaken, spread_overtaken}

spread_overtaken_example : (s : Spread) × Reach 3 s × HasTaken 3 3 s
spread_overtaken_example = spread_overtaken 3 (omega arith)
