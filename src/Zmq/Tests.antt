-- ===== src/Zmq/Tests.antt =====
-- Runs of the publisher and the subscriber on small messages.
use posix_bsp_perf.Prelude.{◌≡◌, refl, some, [], ◌∷◌, ◌++◌, arith}
use posix_bsp_perf.Zmq.{
  Received, receive_data_more, receive_data, receive_vector_more, send_data, send_data_last,
}
use posix_bsp_perf.Zmq.Parts.{
  publish, receive_data_more-publish, receive_data_more-too_large, receive_vector_more-publish,
}

one_part :
    receive_data (0 ∷ 0 ∷ []) 2 (publish (7 ∷ 8 ∷ 9 ∷ []) [] [])
    ≡ some (record { size = 2; buffer = 7 ∷ 8 ∷ []; socket = [] })
unfolding receive_data publish send_data_last send_data
one_part = refl

receive_data_more-publish_example :
    receive_data_more (0 ∷ 0 ∷ 0 ∷ 4 ∷ []) 4 (publish (1 ∷ []) ((2 ∷ 3 ∷ []) ∷ []) [] ++ [])
    ≡ some (record { size = 3; buffer = 1 ∷ 2 ∷ 3 ∷ 4 ∷ []; socket = [] })
receive_data_more-publish_example =
    receive_data_more-publish (1 ∷ []) ((2 ∷ 3 ∷ []) ∷ []) (0 ∷ 0 ∷ 0 ∷ 4 ∷ []) 4 [] (omega arith)

receive_data_more-too_large_run :
    (r : Received) × (receive_data_more [] 1 (publish (1 ∷ 2 ∷ []) ((3 ∷ []) ∷ []) []) ≡ some r)
    × (r.size ≡ 0)
    × (receive_data_more r.buffer 1 r.socket
        ≡ some (record { size = 1; buffer = 3 ∷ []; socket = [] }))
receive_data_more-too_large_run =
    receive_data_more-too_large (1 ∷ 2 ∷ []) (3 ∷ []) [] [] 1 (omega arith) (omega arith)

receive_vector_more-publish_run :
    receive_vector_more (publish (1 ∷ []) ((2 ∷ 3 ∷ []) ∷ []) [] ++ []) ≡ some (1 ∷ 2 ∷ 3 ∷ [], [])
receive_vector_more-publish_run = receive_vector_more-publish (1 ∷ []) ((2 ∷ 3 ∷ []) ∷ []) []
