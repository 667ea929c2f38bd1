-- ===== src/ClientConnection/Tests.antt =====
-- ClientConnection.cpp: the theorems at a new client, and at one that was disconnected.
use tt3d.Base.{◌≡◌, refl, Bool, true, false, List, [], ◌∷◌, none, some, inl}
use tt3d.Raw.{Connection, set_closing}
use tt3d.Raw.Handlers.{IsOthers}
use tt3d.Timer.{TimerMaster, update}
use tt3d.ClientConnection.Silent.{connect-update}
use tt3d.ClientConnection.{ClientConnection, new_client_connection, timer_of, try_each, connect}
use tt3d.ClientConnection.Connect.{
  Ends, new_client_connection-IsReady, connect-Ends, connect-closing,
}

abbrev nothing_else : Connection → Connection
nothing_else c = c

-- The second of two endpoints accepts.
abbrev second_accepts : List Bool
second_accepts = false ∷ true ∷ []

connect-Ends_example :
    (s' : ClientConnection) × (connect
        (timer_of true nothing_else)
        (some second_accepts)
        new_client_connection
      ≡ some (try_each second_accepts, s'))
    × Ends (try_each second_accepts) new_client_connection s'
connect-Ends_example =
    connect-Ends true nothing_else second_accepts new_client_connection
      new_client_connection-IsReady

abbrev was_closed : ClientConnection
was_closed =
    let c = new_client_connection.connection in
    record new_client_connection { connection = set_closing c }

connect-closing_example :
    connect (timer_of true nothing_else) (some second_accepts) was_closed ≡ none
unfolding try_each
connect-closing_example =
    connect-closing (timer_of true nothing_else) second_accepts was_closed refl refl

nothing_else-IsOthers : IsOthers nothing_else
nothing_else-IsOthers = record {
  shared = λ c. refl;
  exclusive = λ c. refl;
  reads = λ c h. h;
  writes = λ c h. h;
  open' = λ c. inl refl;
}

connect-update_example :
    (s : ClientConnection) × (connect
        (timer_of true nothing_else)
        (some second_accepts)
        new_client_connection
      ≡ some (true, s))
    × ((m' : TimerMaster) × (c' : Connection) × (update
            (timer_of true nothing_else)
            91
            s.timer_master
            (some s.connection)
          ≡ some (m', some c'))
        × (c'.status.closing ≡ true))
unfolding try_each
connect-update_example = connect-update nothing_else nothing_else-IsOthers second_accepts refl
