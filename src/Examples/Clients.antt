-- ===== src/Examples/Clients.antt =====
-- Runs of the laws of a client's connection (src/server/Server.cpp).
use distributed_in_memory_ke.Prelude.{◌≡◌, ◌++◌, refl, false, [], ◌∷◌, arith, Bytes, codes}
use distributed_in_memory_ke.Protocol.Value.{crlf}
use distributed_in_memory_ke.Protocol.Progress.{no_negative_bulk}
use distributed_in_memory_ke.Server.Client.{handle_client}
use distributed_in_memory_ke.Server.ClientStream.{handle_client-joined}
use distributed_in_memory_ke.Examples.{platform, three_keys, world, client_environment, connection}

abbrev ping : Bytes
ping = codes "*1" ++ (crlf ++ (codes "$4" ++ (crlf ++ codes "PI")))

abbrev rest_of_ping : Bytes
rest_of_ping = codes "NG" ++ crlf

-- PING in two pieces and in one.
handle_client-joined_example :
    handle_client platform false client_environment connection 100 90
      (ping ∷ rest_of_ping ∷ [])
      (world three_keys)
    ≡ handle_client platform false client_environment connection 100 90
        ((ping ++ rest_of_ping) ∷ [])
        (world three_keys)
unfolding no_negative_bulk
handle_client-joined_example =
    handle_client-joined platform false client_environment connection 100 90 (world three_keys) ping
      (ping ++ rest_of_ping) (rest_of_ping ∷ []) [] (omega arith, omega arith, refl) refl
