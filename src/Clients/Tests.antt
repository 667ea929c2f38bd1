-- ===== src/Clients/Tests.antt =====
-- RpcServiceClients.hpp: the theorems at a game of two clients.
use tt3d.Base.{
  ℕ, ◌≡◌, refl, arith, true, false, ◌||◌, [], ◌∷◌, none, some, ltb, ◌==◌, if◌then◌else◌,
}
use tt3d.Coordinate.{value, undefined}
use tt3d.Clients.{
  String, ClientPtr, Game, ClientRequest, ViewportRequest, register, register_viewport, get, same,
  exists,
}
use tt3d.Clients.Registry.{
  IsGame, taken, new_ptr, register-new, register-IsGame, register_viewport_ends,
}

abbrev player : ℕ → String → ClientPtr
player n login = record {
  address = n;
  client = record { login = login; password = []; viewports = [] };
}

abbrev two_players : Game
two_players = record { clients = player 0 (97 ∷ []) ∷ player 2 (98 ∷ []) ∷ []; allocated = 3 }

abbrev third : ClientRequest
third = record { login = 99 ∷ []; password = some (1 ∷ []) }

abbrev second_again : ClientRequest
second_again = record { login = 98 ∷ []; password = none }

two_players-IsGame : IsGame two_players
unfolding same
two_players-IsGame = record {
  addresses = (omega arith, (omega arith, tt));
  apart = ((omega arith, tt), (tt, tt));
  logins = ((refl, tt), (tt, tt));
}

third_free : taken (99 ∷ []) two_players ≡ false
unfolding exists same
third_free = refl

second_taken : taken (98 ∷ []) two_players ≡ true
unfolding exists same
second_taken = refl

register-new_example :
    ((register third two_players).0.code ≡ 0)
    × ((register third two_players).0.client_id ≡ some 3)
    × (get 3 (register third two_players).1.clients ≡ some (new_ptr third two_players))
register-new_example = register-new third two_players two_players-IsGame third_free (omega arith)

register-IsGame_example :
    IsGame (register third two_players).1
    × (get 2 (register third two_players).1.clients ≡ get 2 two_players.clients)
register-IsGame_example = register-IsGame third two_players 2 two_players-IsGame (omega arith)

abbrev main_view : ViewportRequest
main_view = record {
  client_id = 2;
  name = 77 ∷ [];
  x = 10;
  y = 20;
  viewsize = some 1;
  iviewsize = none;
}

register_viewport_ends_example : register_viewport main_view two_players ≡ (
    if 2 == 0 || ltb 2 2
    then value (record { code = 1; viewport_id = none }, two_players)
    else undefined)
register_viewport_ends_example = register_viewport_ends main_view two_players
