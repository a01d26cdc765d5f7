-- ===== src/Default/Presets.antt =====
-- default.go: what the constructors of loggers make.
use onelog.Prelude.{refl, arith}
use onelog.Heap.{Heap}
use onelog.Config.{new_config, default_config, apply_options}
use onelog.Logger.Rings.{HasRing, new_ring_lem}
use onelog.Default.{
  Parts, configured, build, production_options, high_performance_options, new_production_logger,
  new_high_performance_logger,
}

-- The loggers for production and for high performance have a ring of 2 ^ 15 and of 2 ^ 16 slots,
-- valid and empty, in drop mode, with dynamic resizing.
pub rings_lem :
    (x : Parts) (h : Heap)
    → (let (l, after) = new_production_logger x h in
        HasRing 15 (configured x (production_options x)) l.async_buffer after)
      × (let (l, after) = new_high_performance_logger x h in
          HasRing 16 (configured x (high_performance_options x)) l.async_buffer after)
unfolding new_production_logger new_high_performance_logger build configured new_config
    default_config apply_options production_options high_performance_options
rings_lem x h = (
  (new_ring_lem x.cpus x.text x.stdout 15 (configured x (production_options x)) h (omega arith) refl
      refl (omega arith)).2,
  (new_ring_lem x.cpus x.text x.stdout 16 (configured x (high_performance_options x)) h
      (omega arith) refl refl (omega arith)).2,
)
