-- ===== src/Connect/Result/Tests.antt =====
-- getResult at a concrete poller of connects.
use chain_socket.Base.{ℕ, ◌≡◌, none, arith}
use chain_socket.Base.Map.{lookup}
use chain_socket.Base.Outcome.{Yields}
use chain_socket.Connect.{time_key}
use chain_socket.Connect.View.{view, checked}
use chain_socket.Connect.Check.{IsWatched}
use chain_socket.Connect.Result.{get_result, cleared, IsTimed}
use chain_socket.Connect.Result.Rounds.{get_result-checked}
use chain_socket.Connect.Result.Samples.{connecting, connecting-IsWatched, connecting-IsTimed}

get_result-checked_example :
    Yields
      (λ c'.
        IsWatched c'
        × IsTimed c'
        × ((fd : ℕ)
            → view c' fd
              ≡ checked 26
                  (λ k. none)
                  (lookup time_key fd connecting.connect_time)
                  (view (cleared connecting) fd)))
      (get_result 2 25 26 (λ k. none) connecting)
get_result-checked_example =
    get_result-checked 2 25 26 (λ k. none) connecting connecting-IsWatched connecting-IsTimed
      (omega arith) (omega arith)
