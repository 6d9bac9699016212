-- ===== src/Tests/Stores.antt =====
-- A table in memory.
use hambo.Base.{ℕ}
use hambo.Store.{IsLawful}
use hambo.Store.Collection.{table}
use hambo.Store.Laws.{table-IsLawful}
use hambo.Store.Memory.{memory, memory-IsBucket, plain, plain-IsCodec}

table-IsLawful_example : IsLawful (table (memory {D = ℕ}) plain)
table-IsLawful_example = table-IsLawful memory-IsBucket plain-IsCodec
