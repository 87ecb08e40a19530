-- ===== src/TicTacToe.antt =====
-- examples/tic_tac_toe: the board, the game and the matchmaker of tic_tac_toe_game.hpp, and the service of
-- matchmaking_server/matchmaking_server.cpp.
pub mod Board
pub mod Game
pub mod Matchmaker
pub mod Service
