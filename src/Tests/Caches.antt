-- ===== src/Tests/Caches.antt =====
-- The data cache of the small processor, and its instruction cache
use cmips_cen.Base.{ℕ, ◌+◌, ◌≡◌, true, false, none, some}
use cmips_cen.Vr4300.Dcache
use cmips_cen.Vr4300.Dcache.Probe.{load, load_after}
use cmips_cen.Vr4300.Icache
use cmips_cen.Vr4300.Icache.Probe.{fetch, fetch_after}
use cmips_cen.Tests.Processor.{processor}

abbrev words : ℕ → ℕ
words i = i + 1

load_after_example :
    (load (Dcache.fill 0x2000 0x2000 words processor.dcache) 0x2004 0x2004 ≡ some (words, false))
    × (load (Dcache.invalidate_hit 0x2000 0x2000 processor.dcache) 0x2004 0x2004 ≡ none)
    × (load (Dcache.wb_invalidate 0x2000 processor.dcache).1 0x2004 0x2004 ≡ none)
    × (load (Dcache.create_dirty_exclusive 0x2000 0x2000 processor.dcache) 0x2004 0x2004
        ≡ some ((Dcache.get_line processor.dcache 0x2000).words, true))
    × (load
          (Dcache.put_line 0x2000
            (Dcache.invalidate_line (Dcache.get_line processor.dcache 0x2000))
            processor.dcache)
          0x2004
          0x2004
        ≡ none)
    × (load (Dcache.set_taglo 0x2000 0x2C0 processor.dcache) 0x2004 0x2004
        ≡ some ((Dcache.get_line processor.dcache 0x2000).words, true))
    × (load
          (Dcache.put_line 0x2000
            (Dcache.set_dirty (Dcache.get_line processor.dcache 0x2000))
            processor.dcache)
          0x2004
          0x2004
        ≡ none)
unfolding Dcache.is_valid
load_after_example = load_after processor.dcache 0x2000 0x2000 0x2C0 0x2004 0x2004 words

fetch_after_example :
    (fetch (Icache.fill 0x2000 0x2000 words processor.icache) 0x2004 0x2004 ≡ some words)
    × (fetch (Icache.invalidate 0x2000 processor.icache) 0x2004 0x2004 ≡ none)
    × (fetch (Icache.invalidate_hit 0x2000 0x2000 processor.icache) 0x2004 0x2004 ≡ none)
    × (fetch (Icache.set_taglo 0x2000 0x280 processor.icache) 0x2004 0x2004
        ≡ some (Icache.get_line processor.icache 0x2000).words)
fetch_after_example = fetch_after processor.icache 0x2000 0x2000 0x280 0x2004 0x2004 words
