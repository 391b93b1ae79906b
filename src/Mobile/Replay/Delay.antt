-- ===== src/Mobile/Replay/Delay.antt =====
-- The delay before a change is sent again.
use Prim.Native.Nat.{min}
use arctic_rss.Prelude.{ℕ, zero, suc, ◌-◌, ◌≤◌, ◌≡◌, refl, arith}
use arctic_rss.Mobile.Replay.{mobile_mutation_retry_delay_ms}

-- The delays in milliseconds, by the number of attempts.
unfoldable delay_table : ℕ → ℕ
delay_table zero = 5000
delay_table (suc zero) = 5000
delay_table (suc (suc zero)) = 10000
delay_table (suc (suc (suc zero))) = 20000
delay_table (suc (suc (suc (suc zero)))) = 40000
delay_table (suc (suc (suc (suc (suc zero))))) = 80000
delay_table (suc (suc (suc (suc (suc (suc zero)))))) = 160000
delay_table (suc (suc (suc (suc (suc (suc (suc zero))))))) = 320000
delay_table (suc (suc (suc (suc (suc (suc (suc (suc zero)))))))) = 640000
delay_table (suc (suc (suc (suc (suc (suc (suc (suc (suc zero))))))))) = 1280000
delay_table (suc (suc (suc (suc (suc (suc (suc (suc (suc (suc zero)))))))))) = 2560000
delay_table _ = 3600000

exponent_top : (n : ℕ) → 11 ≤ n → mobile_mutation_retry_delay_ms n ≡ 3600000
unfolding mobile_mutation_retry_delay_ms
exponent_top n h = let e : min 10 (n - 1) ≡ 10 = omega arith in rw e refl

-- The delay before the next attempt is five seconds after the first one and doubles with each, up to
-- one hour from the eleventh on.
delay-delay_table : (n : ℕ) → mobile_mutation_retry_delay_ms n ≡ delay_table n
unfolding mobile_mutation_retry_delay_ms delay_table
delay-delay_table zero = refl
delay-delay_table (suc zero) = refl
delay-delay_table (suc (suc zero)) = refl
delay-delay_table (suc (suc (suc zero))) = refl
delay-delay_table (suc (suc (suc (suc zero)))) = refl
delay-delay_table (suc (suc (suc (suc (suc zero))))) = refl
delay-delay_table (suc (suc (suc (suc (suc (suc zero)))))) = refl
delay-delay_table (suc (suc (suc (suc (suc (suc (suc zero))))))) = refl
delay-delay_table (suc (suc (suc (suc (suc (suc (suc (suc zero)))))))) = refl
delay-delay_table (suc (suc (suc (suc (suc (suc (suc (suc (suc zero))))))))) = refl
delay-delay_table (suc (suc (suc (suc (suc (suc (suc (suc (suc (suc zero)))))))))) = refl
delay-delay_table (suc (suc (suc (suc (suc (suc (suc (suc (suc (suc (suc n))))))))))) =
    exponent_top _ (omega arith)
