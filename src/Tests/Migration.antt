-- ===== src/Tests/Migration.antt =====
-- btier/migration_engine.cc: the engine with one extent, which is to move to the SLOW tier.
use clab.Prelude.{ℕ, ◌≤◌, true, false, List, [], ◌∷◌, length, nat_eq}
use clab.Blk.Avl.Allocating.{AvlAllocator, avl_allocator}
use clab.Btier.Types.{IoOp}
use clab.Btier.ExtentMap.{construct}
use clab.Btier.ExtentMap.Recovery.{create_entry_from_journal, snapshot}
use clab.Btier.ExtentMap.Migration.Calls.{IoCall, uses}
use clab.Btier.MigrationEngine.{Migrator, compact_extent}
use clab.Btier.MigrationEngine.Cycle.{Scoring, migrations, compactions}
use clab.Btier.MigrationEngine.Compacting.{Compacts, compact_extent-Compacts}
use clab.Btier.MigrationEngine.Queueing.{AllMoves, migrations-AllMoves}
use clab.Tests.Durable.{Bytes, memory}
use clab.Tests.Engine.{engine}

abbrev migrator : Migrator AvlAllocator Bytes
migrator = record {
  engine = engine;
  queue = [];
  stats = record {
    promotions_committed = 0;
    demotions_committed = 0;
    compactions_committed = 0;
    interruptions = 0;
    io_errors = 0;
  };
}

abbrev one_use : List IoCall
one_use = uses 1 IoOp.write 7 ∷ []

compact_extent-Compacts_example :
    Compacts avl_allocator memory engine.key_map 2 1
      (compact_extent avl_allocator memory (λ n. n) migrator 1)
unfolding create_entry_from_journal construct
compact_extent-Compacts_example = compact_extent-Compacts avl_allocator memory (λ n. n) migrator 1

abbrev by_metrics : Scoring ℕ
by_metrics = record {
  score = λ raw last. raw;
  sorted = λ ranked. ranked;
  above_promote = λ s. false;
  below_demote = λ s. true;
  over_dead_ratio = λ a b. false;
  over_usage_ratio = λ a b. false;
  max_migrations = 16;
  max_compactions = 4;
}

migrations-AllMoves_example :
    (length (migrations by_metrics engine.extent_map ((1, 0) ∷ []) 0) ≤ 16)
    × (length (compactions by_metrics (snapshot engine.extent_map) 0) ≤ 4)
    × AllMoves engine.extent_map (migrations by_metrics engine.extent_map ((1, 0) ∷ []) 0)
migrations-AllMoves_example =
    migrations-AllMoves by_metrics engine.extent_map ((1, 0) ∷ []) (snapshot engine.extent_map)
