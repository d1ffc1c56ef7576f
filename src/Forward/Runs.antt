-- ===== src/Forward/Runs.antt =====
-- crates/oxsfud/src/fwd/core.rs: a concrete switch of the source.
use oxlens_sfu.Base.{◌≡◌, refl, true, List, [], ◌∷◌, none, some, arith}
use oxlens_sfu.Forward.Rewriter.{
  Last, Rewriter, add16, add32, tick, new, map, serial_after, unmap_nack,
}
use oxlens_sfu.Forward.Switch.{map-switch, unmap_nack-switch}
use oxlens_sfu.Forward.Gapless.{Packet, forward, count_up, forward-gapless}

-- After the last packet before the numbers wrap around.
abbrev heard : Last
heard = record { seq = 65535; ts = 4294967000; at_ms = 100; covers = 960 }

abbrev playing : Rewriter
playing = record (new 48000) { src = some 1; last = some heard }

abbrev switched : Rewriter
switched = (map playing 2 700 5000 120 960).0

map-switch_example :
    ((map playing 2 700 5000 120 960).1 ≡ record {
      seq = add16 65535 1;
      ts = add32 4294967000 (tick 48000 heard 120);
      switched = true;
    })
    × ((map playing 2 700 5000 120 960).0.last
        ≡ some (record {
          seq = add16 65535 1;
          ts = add32 4294967000 (tick 48000 heard 120);
          at_ms = 120;
          covers = 960;
        }))
unfolding new
map-switch_example =
    map-switch playing heard 2 700 5000 120 960 refl refl (omega arith) (omega arith)

unmap_nack-switch_example : unmap_nack switched 65535 ≡ none
unfolding new serial_after
unmap_nack-switch_example =
    unmap_nack-switch playing heard 2 700 5000 120 960 65535 refl refl (omega arith) (omega arith)
      refl

abbrev packets : List Packet
packets =
    record { seq = 700; ts = 5000; at_ms = 120; covers = 960 }
    ∷ record { seq = 701; ts = 5960; at_ms = 140; covers = 960 }
    ∷ []

forward-gapless_example : forward playing 2 packets ≡ count_up (add16 65535 1) 2
unfolding new
forward-gapless_example =
    forward-gapless playing heard 2 700 packets refl refl (omega arith)
      (refl, omega arith, (refl, omega arith, _))
